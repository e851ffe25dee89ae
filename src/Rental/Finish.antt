-- ===== src/Rental/Finish.antt =====
-- `OpenRental`, `FinishRental` and `GetRental`.
pub mod Outcomes
use locker.Prelude.{ℕ, not, Option, some, Text, ◌==◌, holds_num}
use locker.Table.{find, update, filter}
use locker.Table.Ordered.{greatest}
use locker.Domain.{free, SessionStatus, closed, PaymentStatus, payment_is, StorageSession, Locker}
use locker.Store.{
  Db, payment_required, rental_not_found, store_failed, Clock, epoch, Op, ◌>>=◌, ◌>>◌, pure, gets,
  exec, fail_if, or_fail, transaction,
}
use locker.Rental.Select.{set_status}
use locker.Rental.Book.{has_rental}
use locker.Rental.Pay.{refresh_payment_status}

pub record Opened : Type 0 where
  pub rental_id : Text
  pub cell_number : ℕ
  pub opened_at : ℕ

abbrev pub stamp_opened : Clock → Text → Db → Db
stamp_opened clock rental db = record db {
  sessions =
      update (has_rental rental)
        (λ s. record s { opened_at = some (epoch clock.app_now); updated_at = clock.db_now })
        db.sessions;
}

-- `rental_id` is UNIQUE, so the joined rows are those of one session. With no payment the `LEFT
-- JOIN` gives a NULL status, at which the `Scan` fails.
unfoldable pub open_rental : Clock → Text → Op Opened
open_rental clock rental = do
  exec (refresh_payment_status clock.db_now rental)
  row ← gets (λ db. find (has_rental rental) db.sessions)
  s ← or_fail row rental_not_found
  last ← gets (λ db. greatest (λ p. p.created_at) (filter (λ p. p.session_id == s.id) db.payments))
  number ← or_fail s.cell_number store_failed
  p ← or_fail last store_failed
  fail_if (not (payment_is p.status PaymentStatus.paid)) payment_required
  exec (stamp_opened clock rental)
  pure (record { rental_id = rental; cell_number = number; opened_at = clock.app_now })

pub record Finished : Type 0 where
  pub rental_id : Text
  pub finished_at : ℕ

unfoldable pub close_session : Clock → StorageSession → StorageSession
close_session clock s = record s {
  status = closed;
  finished_at = some (epoch clock.app_now);
  closed_at = some (epoch clock.app_now);
  updated_at = clock.db_now;
}

-- The two updates, neither of which looks at a status.
unfoldable pub close_rental : Clock → Text → ℕ → Db → Db
unfolding close_session
close_rental clock rental cell db = record db {
  sessions = update (has_rental rental) (close_session clock) db.sessions;
  lockers = update (λ l. l.id == cell) (set_status free clock.db_now) db.lockers;
}

finish_body : Clock → Text → Op Finished
unfolding close_rental
finish_body clock rental = do
  row ← gets (λ db. find (has_rental rental) db.sessions)
  s ← or_fail row rental_not_found
  cell ← or_fail s.locker_cell_id store_failed
  exec (close_rental clock rental cell)
  pure (record { rental_id = rental; finished_at = clock.app_now })

unfoldable pub finish_rental : Clock → Text → Op Finished
unfolding finish_body
finish_rental clock rental = transaction (finish_body clock rental)

pub record RentalView : Type 0 where
  pub booking_id : Text
  pub rental_id : Text
  pub locker_id : ℕ
  pub cell_number : ℕ
  pub phone : Text
  pub access_code : Text
  pub state : SessionStatus
  pub opened_at : Option ℕ
  pub finished_at : Option ℕ

-- The cell that a session's row is joined to.
unfoldable pub cell_of : StorageSession → Db → Option Locker
cell_of s db = find (λ l. holds_num s.locker_cell_id l.id) db.lockers

unfoldable pub get_rental : Text → Op RentalView
unfolding cell_of
get_rental rental = do
  row ← gets (λ db. find (has_rental rental) db.sessions)
  s ← or_fail row rental_not_found
  joined ← gets (cell_of s)
  l ← or_fail joined rental_not_found
  booking ← or_fail s.booking_id store_failed
  number ← or_fail s.cell_number store_failed
  code ← or_fail s.access_code store_failed
  pure (record {
    booking_id = booking;
    rental_id = rental;
    locker_id = l.location_id;
    cell_number = number;
    phone = s.phone;
    access_code = code;
    state = s.status;
    opened_at = s.opened_at;
    finished_at = s.finished_at;
  })
