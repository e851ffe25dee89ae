-- ===== src/Older/Payments.antt =====
-- internal/repository/payment_repository.go.
use locker.Prelude.{ℕ, suc, Bool, not, none, some, [], ◌∷◌, ◌++◌, Text, ◌==◌}
use locker.Table.{find, update, exists}
use locker.Domain.{PaymentStatus, Payment}
use locker.Store.{store_failed, Op, ◌>>=◌, ◌>>◌, pure, gets, fail_if, exec, or_fail}
use locker.Auth.Accounts.{now_unix}
use locker.Older.Rows.{Driver, PaymentEntity, scan_payment}

module _ {Amount : Type 0} (d : Driver Amount) where
  -- The row that `Create` inserts.
  abbrev pub payment_row : ℕ → PaymentEntity Amount → ℕ → ℕ → Payment
  payment_row id p amount now = record {
    id = id;
    session_id = p.session_id;
    rental_id = none;
    payment_id = none;
    amount = amount;
    currency = p.currency;
    status = p.status;
    external_payment_id = none;
    provider = p.provider;
    qr_payload = p.qr_payload;
    payment_expires_at = none;
    paid_at = none;
    created_at = now;
    updated_at = now;
    raw_callback_json = none;
  }

  -- The session has to be there.
  unfoldable pub add_payment : PaymentEntity Amount → Op ℕ
  unfolding exists
  add_payment p = do
    amount ← or_fail (d.bind_amount p.amount) store_failed
    now ← or_fail (d.bind_time now_unix) store_failed
    known ← gets (λ db. exists (λ s. s.id == p.session_id) db.sessions)
    fail_if (not known) store_failed
    id ← gets (λ db. db.next_payment)
    exec (λ db. record db {
      payments = db.payments ++ payment_row id p amount now ∷ [];
      next_payment = suc db.next_payment;
    })
    pure id

  abbrev pub payment_where : (Payment → Bool) → Op (PaymentEntity Amount)
  payment_where test = do
    row ← gets (λ db. find test db.payments)
    p ← or_fail row store_failed
    or_fail (scan_payment d p) store_failed

  unfoldable pub payment_by_id : ℕ → Op (PaymentEntity Amount)
  unfolding find scan_payment
  payment_by_id id = payment_where (λ p. p.id == id)

  unfoldable pub payment_by_session : ℕ → Op (PaymentEntity Amount)
  unfolding find scan_payment
  payment_by_session session = payment_where (λ p. p.session_id == session)

  unfoldable pub update_payment_status : ℕ → PaymentStatus → ℕ → Text → Op (Unit {0})
  unfolding update
  update_payment_status id status paid_at external = do
    paid ← or_fail (d.bind_time paid_at) store_failed
    now ← or_fail (d.bind_time now_unix) store_failed
    exec (λ db. record db {
      payments =
          update (λ p. p.id == id)
            (λ p. record p {
              status = status;
              paid_at = some paid;
              external_payment_id = some external;
              updated_at = now;
            })
            db.payments;
    })

  unfoldable pub save_callback : ℕ → Text → Op (Unit {0})
  unfolding update
  save_callback id raw = do
    now ← or_fail (d.bind_time now_unix) store_failed
    exec (λ db. record db {
      payments =
          update (λ p. p.id == id)
            (λ p. record p { raw_callback_json = some raw; updated_at = now }) db.payments;
    })
