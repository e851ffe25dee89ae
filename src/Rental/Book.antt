-- ===== src/Rental/Book.antt =====
-- `CreateBooking`.
pub mod Outcomes
pub mod Cases
use locker.Prelude.{
  ℕ, suc, ◌+◌, Bool, true, false, ◌&&◌, ◌||◌, not, some, none, List, [], ◌∷◌, ◌++◌, Text, codes,
  ◌==◌, ltb, holds_num, holds_text, if◌then◌else◌,
}
use locker.Table.{find, update, filter, exists}
use locker.Domain.{
  free, reserved, occupied, locker_is, SessionStatus, selected, active, session_is, pending, Locker,
  StorageSession, Payment,
}
use locker.Store.{
  Db, selection_expired, store_failed, Clock, seconds, epoch, Op, ◌>>=◌, ◌>>◌, pure, fail, gets,
  exec, fail_if, or_fail, transaction,
}
use locker.Rental.Select.{set_status}

pub record Booking : Type 0 where
  pub booking_id : Text
  pub rental_id : Text
  pub locker_id : ℕ
  pub cell_number : ℕ
  pub phone : Text
  pub access_code : Text
  pub opened_at : ℕ

-- What `genID` and `genAccessCode` returned for this booking.
pub record BookingIds : Type 0 where
  pub booking : Text
  pub rental : Text
  pub payment : Text
  pub access_code : Text

abbrev pub has_selection : Text → StorageSession → Bool
has_selection selection s = holds_text s.selection_id selection

abbrev pub has_rental : Text → StorageSession → Bool
has_rental rental s = holds_text s.rental_id rental

-- `JOIN lockers l ON l.id = s.locker_cell_id WHERE … l.location_id = $…`
unfoldable pub is_in_location : ℕ → List Locker → StorageSession → Bool
is_in_location location lockers s =
    exists (λ l. holds_num s.locker_cell_id l.id && l.location_id == location) lockers

-- The row of the selection once it is booked.
unfoldable pub book_session : Clock → BookingIds → Text → ℕ → ℕ → StorageSession → StorageSession
book_session clock ids phone cell number s = record s {
  booking_id = some ids.booking;
  rental_id = some ids.rental;
  locker_cell_id = some cell;
  cell_number = some number;
  phone = phone;
  access_code = some ids.access_code;
  status = active;
  started_at = epoch clock.app_now;
  opened_at = some (epoch clock.app_now);
  updated_at = clock.db_now;
}

-- The first `UPDATE storage_sessions`, which fails where another row has one of the new ids.
unfoldable pub update_booked : Clock → BookingIds → Text → Text → ℕ → ℕ → Op (Unit {0})
unfolding book_session
update_booked clock ids selection phone cell number = do
  taken ← gets (λ db.
      exists
        (λ s.
          not (has_selection selection s)
          && (holds_text s.booking_id ids.booking || has_rental ids.rental s))
        db.sessions)
  fail_if taken store_failed
  exec (λ db. record db {
    sessions =
        update (has_selection selection) (book_session clock ids phone cell number) db.sessions;
  })

abbrev pub rental_price : ℕ
rental_price = 900

unfoldable pub new_payment : Clock → BookingIds → StorageSession → ℕ → Payment
new_payment clock ids s id = record {
  id = id;
  session_id = s.id;
  rental_id = s.rental_id;
  payment_id = some ids.payment;
  amount = rental_price;
  currency = codes "RUB";
  status = pending;
  external_payment_id = none;
  provider = codes "mock";
  qr_payload = codes "lockit://pay/" ++ ids.payment;
  payment_expires_at = some (clock.app_now + seconds 300);
  paid_at = none;
  created_at = clock.db_now;
  updated_at = clock.db_now;
  raw_callback_json = none;
}

-- `INSERT INTO payments … SELECT … FROM storage_sessions WHERE rental_id = $4`: one row for each
-- session, all with one `payment_id`, which is UNIQUE.
unfoldable pub insert_payment : Clock → BookingIds → Op (Unit {0})
unfolding new_payment
insert_payment clock ids = do
  taken ← gets (λ db. exists (λ p. holds_text p.payment_id ids.payment) db.payments)
  booked ← gets (λ db. filter (has_rental ids.rental) db.sessions)
  elim booked [
    | [] ↦ pure tt
    | s ∷ rest ↦ do
      fail_if taken store_failed
      elim rest [
        | [] ↦ exec (λ db. record db {
          payments = db.payments ++ new_payment clock ids s db.next_payment ∷ [];
          next_payment = suc db.next_payment;
        })
        | _ ↦ fail store_failed
      ]
  ]

-- The two updates of the branch that refuses a selection, which the deferred `Rollback` undoes.
abbrev release_selection : Clock → Text → ℕ → Db → Db
release_selection clock selection cell db = record db {
  sessions =
      update (has_selection selection)
        (λ s. record s { status = SessionStatus.expired; updated_at = clock.db_now }) db.sessions;
  lockers =
      update (λ l. l.id == cell && locker_is l.status reserved) (set_status free clock.db_now)
        db.lockers;
}

-- The two updates after the payment, whose errors are dropped.
abbrev pub occupy : Clock → Text → ℕ → Db → Db
occupy clock selection cell db = record db {
  sessions =
      update (has_selection selection)
        (λ s. record s { status = active; updated_at = clock.db_now }) db.sessions;
  lockers = update (λ l. l.id == cell) (set_status occupied clock.db_now) db.lockers;
}

-- What follows the checks.
unfoldable pub book_cell : Clock → BookingIds → ℕ → Text → Text → ℕ → ℕ → Op Booking
unfolding update_booked insert_payment
book_cell clock ids location selection phone cell number = do
  update_booked clock ids selection phone cell number
  insert_payment clock ids
  exec (occupy clock selection cell)
  pure (record {
    booking_id = ids.booking;
    rental_id = ids.rental;
    locker_id = location;
    cell_number = number;
    phone = phone;
    access_code = ids.access_code;
    opened_at = clock.app_now;
  })

-- `status != "selected" || time.Now().After(holdExpires)`
abbrev pub is_lapsed : Clock → StorageSession → ℕ → Bool
is_lapsed clock s hold = not (session_is s.status selected) || ltb hold clock.app_now

book_body : Clock → BookingIds → ℕ → Text → Text → Op Booking
unfolding book_cell
book_body clock ids location selection phone = do
  row ← gets (λ db.
      find (λ s. has_selection selection s && is_in_location location db.lockers s) db.sessions)
  s ← or_fail row selection_expired
  cell ← or_fail s.locker_cell_id store_failed
  number ← or_fail s.cell_number store_failed
  hold ← or_fail s.hold_expires_at store_failed
  elim (is_lapsed clock s hold) [
    | true ↦ do exec (release_selection clock selection cell); fail selection_expired
    | false ↦ book_cell clock ids location selection phone cell number
  ]

unfoldable pub create_booking : Clock → BookingIds → ℕ → Text → Text → Op Booking
unfolding book_body
create_booking clock ids location selection phone =
    transaction (book_body clock ids location selection phone)
