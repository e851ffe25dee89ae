-- ===== src/Rental/Book/Cases.antt =====
-- Every way in which `CreateBooking` ends, as one family over its result.
use locker.Prelude.{ℕ, ◌≤◌, ◌≡◌, inl, inr, false, some, Text, Bool-cases, Option-cases}
use locker.Table.{find, count}
use locker.Domain.{StorageSession}
use locker.Store.{Db, Clock, RepoError, Result, ok, err}
use locker.Store.Rollback.{transaction-err}
use locker.Rental.Book.{
  Booking, BookingIds, has_selection, book_session, is_lapsed, create_booking, book_body,
}
use locker.Rental.Book.Outcomes.{
  booking_for, booked, wanted, ids_taken, payment_taken, not_found, no_cell_id, no_number, no_hold,
  lapsed, taken, paid_twice, completed, paying_row,
}

-- A booking that fails leaves the database as it was.
pub create_booking-err :
    (clock : Clock) (ids : BookingIds) (location : ℕ) (selection phone : Text) (db : Db)
    {e : RepoError}
    → (create_booking clock ids location selection phone db).0 ≡ err e
    → (create_booking clock ids location selection phone db).1 ≡ db
unfolding create_booking
create_booking-err clock ids location selection phone db h =
    transaction-err (book_body clock ids location selection phone) db h

module _ (clock : Clock) (ids : BookingIds) (location : ℕ) (selection : Text) (phone : Text)
    (db : Db) where
  pub data Books : Result RepoError Booking × Db → Type 0 where
    refused : {e : RepoError} → Books (err e, db)
    granted :
        {s : StorageSession} {cell number hold : ℕ}
        → find (wanted clock ids location selection phone db) db.sessions ≡ some s
        → s.locker_cell_id ≡ some cell
        → s.cell_number ≡ some number
        → s.hold_expires_at ≡ some hold
        → is_lapsed clock s hold ≡ false
        → ids_taken clock ids location selection phone db ≡ false
        → Books (
          ok (booking_for clock ids location selection phone db number),
          booked clock ids location selection phone db cell number
              (book_session clock ids phone cell number s),
        )

  pub create_booking_cases :
      count (has_selection selection) db.sessions ≤ 1
      → Books (create_booking clock ids location selection phone db)
  create_booking_cases once =
      elim (Option-cases (find (wanted clock ids location selection phone db) db.sessions)) [
        | inl e ↦ rw (not_found clock ids location selection phone db e) refused
        | inr (s, e) ↦ elim (Option-cases s.locker_cell_id) [
          | inl f ↦ rw (no_cell_id clock ids location selection phone db s e f) refused
          | inr (cell, f) ↦ elim (Option-cases s.cell_number) [
            | inl g ↦ rw (no_number clock ids location selection phone db s e f g) refused
            | inr (number, g) ↦ elim (Option-cases s.hold_expires_at) [
              | inl h ↦ rw (no_hold clock ids location selection phone db s e f g h) refused
              | inr (hold, h) ↦ checked s cell number hold e f g h
            ]
          ]
        ]
      ]
    where
      checked :
          (s : StorageSession) (cell number hold : ℕ)
          → find (wanted clock ids location selection phone db) db.sessions ≡ some s
          → s.locker_cell_id ≡ some cell
          → s.cell_number ≡ some number
          → s.hold_expires_at ≡ some hold
          → Books (create_booking clock ids location selection phone db)
      checked s cell number hold e f g h = elim (Bool-cases (is_lapsed clock s hold)) [
        | inl l ↦
            rw (lapsed clock ids location selection phone db s e cell number hold f g h l) refused
        | inr l ↦ elim (Bool-cases (ids_taken clock ids location selection phone db)) [
          | inl t ↦
              rw (taken clock ids location selection phone db s e cell number hold f g h l t)
                refused
          | inr t ↦ elim (Bool-cases (payment_taken clock ids location selection phone db)) [
            | inl p ↦
                rw
                  (paid_twice clock ids location selection phone db s e cell number hold f g h
                    (book_session clock ids phone cell number s) l t p
                    (paying_row clock ids location selection phone db s e cell number hold f g h
                      once t))
                  refused
            | inr p ↦
                rw
                  (completed clock ids location selection phone db s e cell number hold f g h
                    (book_session clock ids phone cell number s) l t p
                    (paying_row clock ids location selection phone db s e cell number hold f g h
                      once t))
                  (granted e f g h l t)
          ]
        ]
      ]
