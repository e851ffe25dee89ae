-- ===== src/Rental/Access.antt =====
-- `CheckAccessCode`.
pub mod Entry
pub mod Races
use locker.Prelude.{ℕ, Bool, ◌&&◌, not, Option, some, none, Text, ◌==◌, holds_text, if◌then◌else◌}
use locker.Table.{find, filter, exists}
use locker.Table.Ordered.{greatest}
use locker.Domain.{PaymentStatus, active, session_is, payment_is, StorageSession, Payment}
use locker.Store.{
  Db, invalid_access, rental_closed, store_failed, Op, ◌>>=◌, ◌>>◌, pure, gets, exec, fail_if,
  or_fail,
}
use locker.Rental.Book.{has_rental, is_in_location}
use locker.Rental.Pay.{refresh_payment_status}

-- The `payment` part of the answer.
pub record PaymentDue : Type 0 where
  pub payment_id : Text
  pub amount : ℕ
  pub currency : Text
  pub status : PaymentStatus
  pub qr_payload : Text
  pub payment_expires_at : ℕ

-- `payment = none` is the answer with `paymentRequired: false`, whose `state` is `active`.
pub record Access : Type 0 where
  pub rental_id : Text
  pub locker_id : ℕ
  pub cell_number : ℕ
  pub phone : Text
  pub access_code : Text
  pub payment : Option PaymentDue

unfoldable pub admits : ℕ → Text → Db → StorageSession → Bool
admits location code db s =
    is_in_location location db.lockers s
    && holds_text s.access_code code
    && session_is s.status active

-- `FROM payments p JOIN storage_sessions s ON s.id = p.session_id WHERE s.rental_id = $1`
abbrev pub is_payment_of : Text → Db → Payment → Bool
is_payment_of rental db p = exists (λ s. s.id == p.session_id && has_rental rental s) db.sessions

unfoldable pub last_payment : Text → Db → Option Payment
last_payment rental db = greatest (λ p. p.created_at) (filter (is_payment_of rental db) db.payments)

-- The session that the last payment is joined to.
unfoldable pub session_of_payment : Text → Payment → Db → Option StorageSession
session_of_payment rental p db = find (λ s. s.id == p.session_id && has_rental rental s) db.sessions

unfoldable pub check_access_code : ℕ → ℕ → Text → Op Access
check_access_code now location code = do
  row ← gets (λ db. find (admits location code db) db.sessions)
  s ← or_fail row invalid_access
  rental ← or_fail s.rental_id store_failed
  number ← or_fail s.cell_number store_failed
  exec (refresh_payment_status now rental)
  last ← gets (last_payment rental)
  p ← or_fail last store_failed
  owner ← gets (session_of_payment rental p)
  r ← or_fail owner store_failed
  payment ← or_fail p.payment_id store_failed
  expires ← or_fail p.payment_expires_at store_failed
  fail_if (not (session_is r.status active)) rental_closed
  pure (record {
    rental_id = rental;
    locker_id = location;
    cell_number = number;
    phone = s.phone;
    access_code = code;
    payment =
        if payment_is p.status PaymentStatus.paid
        then none
        else some (record {
          payment_id = payment;
          amount = p.amount;
          currency = p.currency;
          status = p.status;
          qr_payload = p.qr_payload;
          payment_expires_at = expires;
        });
  })
