-- ===== src/Rental/Book/Outcomes.antt =====
-- How `CreateBooking` ends: each way it is refused, and what it has done when it is not.
use locker.Prelude.{
  ℕ, suc, ◌≤◌, ◌≡◌, text_eq_refl, Bool, true, false, ◌&&◌, ◌||◌, not, none, some, List, [], ◌∷◌,
  ◌++◌, Text, holds_text, arith,
}
use locker.Table.{find, update, filter, count, exists}
use locker.Table.Counting.{count_of_exists, count_mono}
use locker.Table.Unique.{find_unique, filter_one, find-update, find_also, count_after}
use locker.Domain.{StorageSession}
use locker.Store.{Db, Clock, ok, err, selection_expired, store_failed}
use locker.Rental.Book.{
  Booking, BookingIds, has_selection, has_rental, is_in_location, book_session, new_payment, occupy,
  is_lapsed, create_booking,
}

module _ (clock : Clock) (ids : BookingIds) (location : ℕ) (selection : Text) (phone : Text)
    (db : Db) where
  -- The answer of a booking that went through.
  abbrev pub booking_for : ℕ → Booking
  booking_for number = record {
    booking_id = ids.booking;
    rental_id = ids.rental;
    locker_id = location;
    cell_number = number;
    phone = phone;
    access_code = ids.access_code;
    opened_at = clock.app_now;
  }

  -- The sessions after the first update.
  abbrev pub booked_sessions : ℕ → ℕ → List StorageSession
  booked_sessions cell number =
      update (has_selection selection) (book_session clock ids phone cell number) db.sessions

  -- The database after a booking whose payment is that of the row `paying`.
  abbrev pub booked : ℕ → ℕ → StorageSession → Db
  booked cell number paying = occupy clock selection cell (record db {
    sessions = booked_sessions cell number;
    payments = db.payments ++ new_payment clock ids paying db.next_payment ∷ [];
    next_payment = suc db.next_payment;
  })

  abbrev pub wanted : StorageSession → Bool
  wanted s = has_selection selection s && is_in_location location db.lockers s

  -- Another session has one of the new ids.
  abbrev pub ids_taken : Bool
  ids_taken =
      exists
        (λ s.
          not (has_selection selection s)
          && (holds_text s.booking_id ids.booking || has_rental ids.rental s))
        db.sessions

  abbrev pub payment_taken : Bool
  payment_taken = exists (λ p. holds_text p.payment_id ids.payment) db.payments

  pub no_other_rental :
      ids_taken ≡ false
      → count (λ x. not (has_selection selection x) && has_rental ids.rental x) db.sessions ≡ 0
  no_other_rental free = omega (
    arith,
    count_of_exists
        (λ s.
          not (has_selection selection s)
          && (holds_text s.booking_id ids.booking || has_rental ids.rental s))
        db.sessions free,
    count_mono (λ x. not (has_selection selection x) && has_rental ids.rental x)
        (λ s.
          not (has_selection selection s)
          && (holds_text s.booking_id ids.booking || has_rental ids.rental s))
        db.sessions (λ x e. ground arith),
  )

  pub not_found :
      find wanted db.sessions ≡ none
      → create_booking clock ids location selection phone db ≡ (err selection_expired, db)
  unfolding create_booking
  not_found e = ground arith

  module _ (s : StorageSession) (found : find wanted db.sessions ≡ some s) where
    pub no_cell_id :
        s.locker_cell_id ≡ none
        → create_booking clock ids location selection phone db ≡ (err store_failed, db)
    unfolding create_booking
    no_cell_id e = ground arith

    pub no_number :
        {cell : ℕ}
        → s.locker_cell_id ≡ some cell
        → s.cell_number ≡ none
        → create_booking clock ids location selection phone db ≡ (err store_failed, db)
    unfolding create_booking
    no_number e f = ground arith

    pub no_hold :
        {cell number : ℕ}
        → s.locker_cell_id ≡ some cell
        → s.cell_number ≡ some number
        → s.hold_expires_at ≡ none
        → create_booking clock ids location selection phone db ≡ (err store_failed, db)
    unfolding create_booking
    no_hold e f g = ground arith

    module _ (cell number hold : ℕ) (at_cell : s.locker_cell_id ≡ some cell)
        (numbered : s.cell_number ≡ some number) (held : s.hold_expires_at ≡ some hold) where
      -- A selection that is over is refused, and the rollback takes the branch's updates back.
      pub lapsed :
          is_lapsed clock s hold ≡ true
          → create_booking clock ids location selection phone db ≡ (err selection_expired, db)
      unfolding create_booking
      lapsed e = ground arith

      pub taken :
          is_lapsed clock s hold ≡ false
          → ids_taken ≡ true
          → create_booking clock ids location selection phone db ≡ (err store_failed, db)
      unfolding create_booking
      taken e t = ground arith

      pub paid_twice :
          (paying : StorageSession)
          → is_lapsed clock s hold ≡ false
          → ids_taken ≡ false
          → payment_taken ≡ true
          → filter (has_rental ids.rental) (booked_sessions cell number) ≡ paying ∷ []
          → create_booking clock ids location selection phone db ≡ (err store_failed, db)
      unfolding create_booking
      paid_twice paying e t p f = ground arith

      pub completed :
          (paying : StorageSession)
          → is_lapsed clock s hold ≡ false
          → ids_taken ≡ false
          → payment_taken ≡ false
          → filter (has_rental ids.rental) (booked_sessions cell number) ≡ paying ∷ []
          → create_booking clock ids location selection phone db
            ≡ (ok (booking_for number), booked cell number paying)
      unfolding create_booking
      completed paying e t p f = ground arith

      -- The row that the payment is written for: the session itself, as it was just booked.
      pub paying_row :
          count (has_selection selection) db.sessions ≤ 1
          → ids_taken ≡ false
          → filter (has_rental ids.rental) (booked_sessions cell number)
            ≡ book_session clock ids phone cell number s ∷ []
      unfolding book_session
      paying_row once free =
          filter_one (has_rental ids.rental) (booked_sessions cell number)
            (count_after (has_rental ids.rental) (has_selection selection)
              (book_session clock ids phone cell number) db.sessions (λ x e. e) once others)
            (find_unique (has_rental ids.rental) (has_selection selection)
              (booked_sessions cell number)
              (count_after (has_rental ids.rental) (has_selection selection)
                (book_session clock ids phone cell number) db.sessions (λ x e. e) once others)
              (find_also (has_rental ids.rental) (has_selection selection)
                (booked_sessions cell number)
                (find-update (has_selection selection) (book_session clock ids phone cell number)
                  db.sessions (λ x e. e)
                  (find_unique (has_selection selection) (is_in_location location db.lockers)
                    db.sessions once found))
                (text_eq_refl ids.rental)))
        where
          others :
              count (λ x. not (has_selection selection x) && has_rental ids.rental x) db.sessions
              ≡ 0
          others = no_other_rental free
