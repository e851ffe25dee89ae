-- ===== src/Billing/FirstOpening.antt =====
-- From a booking to the first opening: `CreateBooking`, then `OpenRental`.
use locker.Prelude.{
  ℕ, ◌+◌, ◌≤◌, ◌≡◌, refl, Bool, true, false, some, List, [], ◌∷◌, ◌++◌, Text, ◌==◌, holds_text,
  text_eq_refl, arith,
}
use locker.Table.{find, update, filter, count}
use locker.Table.Ordered.{greatest}
use locker.Table.Unique.{find_unique, find_also, find-update}
use locker.Domain.{PaymentStatus, active, payment_is, StorageSession, Payment}
use locker.Store.{Db, Clock, ok, seconds}
use locker.Rental.Book.{
  BookingIds, has_selection, has_rental, is_in_location, book_session, new_payment, is_lapsed,
  create_booking,
}
use locker.Rental.Book.Outcomes.{
  wanted, ids_taken, payment_taken, completed, paying_row, booked_sessions, booked, booking_for,
}
use locker.Rental.Pay.{refresh, refresh_payment_status}
use locker.Rental.Finish.{open_rental}
use locker.Rental.Finish.Outcomes.{last_of, open_paid}
use locker.Holding.{IsConsistent}
use locker.Holding.Book.{book-IsConsistent}

-- A selection over the payments of a session of which the last row is the only one.
only_last :
    (c q : Payment → Bool) (f : Payment → Payment) (ps : List Payment) (x : Payment)
    → ((y : Payment) → c (f y) ≡ c y)
    → count c ps ≡ 0
    → c x ≡ true
    → q x ≡ true
    → filter c (update q f (ps ++ x ∷ [])) ≡ f x ∷ []
unfolding filter update count
only_last c q f [] x same none_yet cx qx = ground (arith, same x)
only_last c q f (p ∷ ps) x same none_yet cx qx = ground (arith, same p, only_last c q f ps x same)

module _ (clock later : Clock) (ids : BookingIds) (location : ℕ) (selection : Text) (phone : Text)
    (db : Db) (s : StorageSession) (cell number : ℕ) where
  -- The session once it is booked.
  abbrev rented : StorageSession
  rented = record (book_session clock ids phone cell number s) {
    status = active;
    updated_at = clock.db_now;
  }

  abbrev after : Db
  after =
      booked clock ids location selection phone db cell number
        (book_session clock ids phone cell number s)

  abbrev due : Payment
  due = new_payment clock ids (book_session clock ids phone cell number s) db.next_payment

  rented_row :
      count (has_selection selection) db.sessions ≤ 1
      → IsConsistent after
      → find (wanted clock ids location selection phone db) db.sessions ≡ some s
      → find (has_rental ids.rental) after.sessions ≡ some rented
  unfolding book_session
  rented_row once v found =
      find_unique (has_rental ids.rental) (has_selection selection) after.sessions
        (v.rental_once ids.rental)
        (find_also (has_rental ids.rental) (has_selection selection) after.sessions
          (find-update (has_selection selection)
            (λ x. record x { status = active; updated_at = clock.db_now })
            (booked_sessions clock ids location selection phone db cell number) (λ x e. e)
            (find-update (has_selection selection) (book_session clock ids phone cell number)
              db.sessions (λ x e. e)
              (find_unique (has_selection selection) (is_in_location location db.lockers)
                db.sessions once found)))
          (text_eq_refl ids.rental))

  due_last :
      count (λ p. p.session_id == s.id) db.payments ≡ 0
      → last_of later ids.rental after rented ≡ some (refresh later.db_now due)
  unfolding book_session new_payment refresh_payment_status greatest
  due_last none_yet = rw (
      only_last (λ p. p.session_id == s.id) (λ p. holds_text p.rental_id ids.rental)
        (refresh later.db_now) db.payments due (λ y. refl) none_yet (ground arith)
        (text_eq_refl ids.rental))

  due_paid :
      clock.db_now + seconds 5 ≤ later.db_now
      → later.db_now ≤ clock.app_now + seconds 300
      → payment_is (refresh later.db_now due).status PaymentStatus.paid ≡ true
  unfolding new_payment refresh
  due_paid old live = ground arith

-- In a consistent database a selection that is still held, with ids that are new and no payment of
-- its session yet, is booked, and the rental can be opened from five seconds after the booking
-- until its payment expires, five minutes after it.
pub book-open :
    (clock later : Clock) (ids : BookingIds) (location : ℕ) (selection phone : Text) (db : Db)
    (s : StorageSession) (cell number hold : ℕ)
    → IsConsistent db
    → find (wanted clock ids location selection phone db) db.sessions ≡ some s
    → s.locker_cell_id ≡ some cell
    → s.cell_number ≡ some number
    → s.hold_expires_at ≡ some hold
    → is_lapsed clock s hold ≡ false
    → ids_taken clock ids location selection phone db ≡ false
    → payment_taken clock ids location selection phone db ≡ false
    → count (λ p. p.session_id == s.id) db.payments ≡ 0
    → clock.db_now + seconds 5 ≤ later.db_now
    → later.db_now ≤ clock.app_now + seconds 300
    → (open_rental later ids.rental (create_booking clock ids location selection phone db).1).0
      ≡ ok (record { rental_id = ids.rental; cell_number = number; opened_at = later.app_now })
unfolding refresh_payment_status book_session
book-open clock later ids location selection phone db s cell number hold v found c n h live fresh
      new none_yet old soon =
    rw (done) (
      rw (
        open_paid later ids.rental (after clock later ids location selection phone db s cell number)
          (rented clock later ids location selection phone db s cell number)
          (rented_row clock later ids location selection phone db s cell number
            (v.selection_once selection)
            (rw done at (book-IsConsistent clock ids location selection phone db v)) found)
          number
          (refresh later.db_now (due clock later ids location selection phone db s cell number))
          refl (due_last clock later ids location selection phone db s cell number none_yet)
          (due_paid clock later ids location selection phone db s cell number old soon)))
  where
    done : create_booking clock ids location selection phone db ≡ (
      ok (booking_for clock ids location selection phone db number),
      after clock later ids location selection phone db s cell number,
    )
    done =
        completed clock ids location selection phone db s found cell number hold c n h
          (book_session clock ids phone cell number s) live fresh new
          (paying_row clock ids location selection phone db s found cell number hold c n h
            (v.selection_once selection) fresh)
