-- ===== src/Rental/Finish/Outcomes.antt =====
-- How `FinishRental` and `OpenRental` end.
use locker.Prelude.{
  ℕ, ◌≡◌, inl, inr, Option, none, some, Text, ◌==◌, arith, Option-cases, Bool-cases, false, true,
}
use locker.Table.{find, filter}
use locker.Table.Ordered.{greatest}
use locker.Domain.{PaymentStatus, payment_is, StorageSession, Payment}
use locker.Store.{
  Db, Clock, RepoError, Result, ok, err, rental_not_found, payment_required, store_failed,
}
use locker.Rental.Book.{has_rental}
use locker.Rental.Pay.{refresh_payment_status}
use locker.Rental.Finish.{Opened, Finished, open_rental, stamp_opened, close_rental, finish_rental}

module _ (clock : Clock) (rental : Text) (db : Db) where
  abbrev pub finished : Finished
  finished = record { rental_id = rental; finished_at = clock.app_now }

  pub finish_unknown :
      find (has_rental rental) db.sessions ≡ none
      → finish_rental clock rental db ≡ (err rental_not_found, db)
  unfolding finish_rental
  finish_unknown e = ground arith

  pub finish_no_cell :
      {s : StorageSession}
      → find (has_rental rental) db.sessions ≡ some s
      → s.locker_cell_id ≡ none
      → finish_rental clock rental db ≡ (err store_failed, db)
  unfolding finish_rental
  finish_no_cell e f = ground arith

  pub finish_done :
      {s : StorageSession} {cell : ℕ}
      → find (has_rental rental) db.sessions ≡ some s
      → s.locker_cell_id ≡ some cell
      → finish_rental clock rental db ≡ (ok finished, close_rental clock rental cell db)
  unfolding finish_rental
  finish_done e f = ground arith

  pub data Finishes : Result RepoError Finished × Db → Type 0 where
    refused : {e : RepoError} → Finishes (err e, db)
    closes :
        {s : StorageSession} {cell : ℕ}
        → find (has_rental rental) db.sessions ≡ some s
        → s.locker_cell_id ≡ some cell
        → Finishes (ok finished, close_rental clock rental cell db)

  pub finish_rental_cases : Finishes (finish_rental clock rental db)
  finish_rental_cases = elim (Option-cases (find (has_rental rental) db.sessions)) [
    | inl e ↦ rw (finish_unknown e) refused
    | inr (s, e) ↦ elim (Option-cases s.locker_cell_id) [
      | inl f ↦ rw (finish_no_cell e f) refused
      | inr (cell, f) ↦ rw (finish_done e f) (closes e f)
    ]
  ]

  -- The payments once `refreshPaymentStatus` has run.
  abbrev pub refreshed : Db
  refreshed = refresh_payment_status clock.db_now rental db

  abbrev pub last_of : StorageSession → Option Payment
  last_of s = greatest (λ p. p.created_at) (filter (λ p. p.session_id == s.id) refreshed.payments)

  pub open_unknown :
      find (has_rental rental) refreshed.sessions ≡ none
      → open_rental clock rental db ≡ (err rental_not_found, refreshed)
  unfolding open_rental
  open_unknown e = ground arith

  module _ (s : StorageSession) (found : find (has_rental rental) refreshed.sessions ≡ some s) where
    pub open_no_payment :
        last_of s ≡ none → open_rental clock rental db ≡ (err store_failed, refreshed)
    unfolding open_rental
    open_no_payment e = ground arith

    pub open_no_number :
        s.cell_number ≡ none → open_rental clock rental db ≡ (err store_failed, refreshed)
    unfolding open_rental
    open_no_number e = ground arith

    module _ (number : ℕ) (p : Payment) (numbered : s.cell_number ≡ some number)
        (last : last_of s ≡ some p) where
      pub open_unpaid :
          payment_is p.status PaymentStatus.paid ≡ false
          → open_rental clock rental db ≡ (err payment_required, refreshed)
      unfolding open_rental
      open_unpaid e = ground arith

      pub open_paid :
          payment_is p.status PaymentStatus.paid ≡ true
          → open_rental clock rental db ≡ (
            ok (record { rental_id = rental; cell_number = number; opened_at = clock.app_now }),
            stamp_opened clock rental refreshed,
          )
      unfolding open_rental
      open_paid e = ground arith

  pub data Opens : Result RepoError Opened × Db → Type 0 where
    shut : {e : RepoError} → Opens (err e, refreshed)
    opens :
        {s : StorageSession} {number : ℕ} {p : Payment}
        → find (has_rental rental) refreshed.sessions ≡ some s
        → s.cell_number ≡ some number
        → last_of s ≡ some p
        → payment_is p.status PaymentStatus.paid ≡ true
        → Opens (
          ok (record { rental_id = rental; cell_number = number; opened_at = clock.app_now }),
          stamp_opened clock rental refreshed,
        )

  pub open_rental_cases : Opens (open_rental clock rental db)
  open_rental_cases = elim (Option-cases (find (has_rental rental) refreshed.sessions)) [
    | inl e ↦ rw (open_unknown e) shut
    | inr (s, e) ↦ elim (Option-cases s.cell_number) [
      | inl f ↦ rw (open_no_number s e f) shut
      | inr (number, f) ↦ elim (Option-cases (last_of s)) [
        | inl g ↦ rw (open_no_payment s e g) shut
        | inr (p, g) ↦ elim (Bool-cases (payment_is p.status PaymentStatus.paid)) [
          | inl h ↦ rw (open_paid s e number p f g h) (opens e f g h)
          | inr h ↦ rw (open_unpaid s e number p f g h) shut
        ]
      ]
    ]
  ]
