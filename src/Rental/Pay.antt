-- ===== src/Rental/Pay.antt =====
-- `refreshPaymentStatus` and `GetPayment`.
use locker.Prelude.{
  ℕ, ◌+◌, Bool, ◌&&◌, Option, some, none, Text, ◌==◌, leb, holds_text, if◌then◌else◌,
}
use locker.Table.{find, update}
use locker.Domain.{PaymentStatus, pending, payment_is, Payment}
use locker.Store.{
  Db, payment_not_found, seconds, is_before, Op, ◌>>=◌, ◌>>◌, pure, gets, exec, or_fail,
}

abbrev pub is_pending : Payment → Bool
is_pending p = payment_is p.status pending

-- `created_at <= NOW() - INTERVAL '5 seconds'`
abbrev pub is_settled : ℕ → Payment → Bool
is_settled now p = leb (p.created_at + seconds 5) now

-- The `SET` of the update, whose two `CASE`s read the row as it was.
unfoldable pub refresh : ℕ → Payment → Payment
refresh now p = record p {
  status =
      if is_pending p && is_before p.payment_expires_at now
      then PaymentStatus.expired
      else if is_pending p && is_settled now p
      then PaymentStatus.paid
      else p.status;
  paid_at = if is_pending p && is_settled now p then some now else p.paid_at;
  updated_at = now;
}

unfoldable pub refresh_payment_status : ℕ → Text → Db → Db
unfolding refresh
refresh_payment_status now rental db = record db {
  payments = update (λ p. holds_text p.rental_id rental) (refresh now) db.payments;
}

pub record PaymentView : Type 0 where
  pub payment_id : Text
  pub status : PaymentStatus
  pub amount : ℕ
  pub currency : Text
  pub paid_at : Option ℕ

abbrev pub has_payment : Text → Payment → Bool
has_payment payment p = holds_text p.payment_id payment

-- The rental to refresh: the payment's own, or where that is NULL (the `Scan` fails) its session's.
unfoldable pub rental_of_payment : Text → Db → Option Text
rental_of_payment payment db = elim (find (has_payment payment) db.payments) [
  | none ↦ none
  | some p ↦ elim p.rental_id [
    | some r ↦ some r
    | none ↦ elim (find (λ s. s.id == p.session_id) db.sessions) [
      | none ↦ none
      | some s ↦ s.rental_id
    ]
  ]
]

unfoldable pub refresh_if_known : ℕ → Option Text → Db → Db
refresh_if_known now none db = db
refresh_if_known now (some rental) db = refresh_payment_status now rental db

unfoldable pub get_payment : ℕ → Text → Op PaymentView
unfolding refresh_if_known
get_payment now payment = do
  rental ← gets (rental_of_payment payment)
  exec (refresh_if_known now rental)
  row ← gets (λ db. find (has_payment payment) db.payments)
  p ← or_fail row payment_not_found
  pure (record {
    payment_id = payment;
    status = p.status;
    amount = p.amount;
    currency = p.currency;
    paid_at = p.paid_at;
  })
