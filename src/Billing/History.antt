-- ===== src/Billing/History.antt =====
-- What the whole rental flow does to payments.
use locker.Prelude.{ℕ, ◌≤◌, ◌≡◌, Bool, false, ◌&&◌, List, [], ◌∷◌, Text, ◌==◌, holds_text, arith}
use locker.Table.{update, count}
use locker.Table.Counting.{count-append}
use locker.Domain.{PaymentStatus, pending, payment_is, Payment}
use locker.Store.{Db, Clock, Result, RepoError}
use locker.Rental.Select.{Selection, cleanup_expired_selections}
use locker.Rental.Select.Outcomes as SelectEnds
use locker.Rental.Book.{Booking, BookingIds}
use locker.Rental.Book.Cases as BookEnds
use locker.Rental.Pay.{refresh, refresh_payment_status}
use locker.Rental.Finish.{Opened, Finished, close_rental}
use locker.Rental.Finish.Outcomes as FinishEnds
use locker.Holding.{IsConsistent}
use locker.Holding.Quiet.{Refreshed, same, refreshed, get_payment-Refreshed, check-Refreshed}
use locker.Holding.Reach.{
  Step, Reach, here, next, sweep, select, book, pay, check, unlock, finish, Reach-IsConsistent,
}

-- How many payments of an id have a status.
abbrev pub with_status : ℕ → PaymentStatus → List Payment → ℕ
with_status i st = count (λ p. p.id == i && payment_is p.status st)

module _ (i : ℕ) (st : PaymentStatus) (final : payment_is st pending ≡ false) where
  refresh_keeps :
      (now : ℕ) (q : Payment → Bool) (ps : List Payment)
      → with_status i st ps ≤ with_status i st (update q (refresh now) ps)
  unfolding refresh update count
  refresh_keeps now q [] = omega arith
  refresh_keeps now q (p ∷ ps) = ground (arith, final, refresh_keeps now q ps)

  Refreshed_keeps :
      {now : ℕ} {db after : Db}
      → Refreshed now db after
      → with_status i st db.payments ≤ with_status i st after.payments
  unfolding refresh_payment_status
  Refreshed_keeps same = omega arith
  Refreshed_keeps {now} {db} (refreshed rental) =
      refresh_keeps now (λ p. holds_text p.rental_id rental) db.payments

  select_keeps :
      {clock : Clock} {skip : ℕ → Bool} {selection : Text} {location : ℕ} {size : Text} {db : Db}
      {r : Result RepoError Selection × Db}
      → SelectEnds.Selects clock skip selection location size db r
      → with_status i st db.payments ≤ with_status i st r.1.payments
  unfolding cleanup_expired_selections
  select_keeps SelectEnds.refused = omega arith
  select_keeps (SelectEnds.granted found fresh) = omega arith

  book_keeps :
      {clock : Clock} {ids : BookingIds} {location : ℕ} {selection phone : Text} {db : Db}
      {r : Result RepoError Booking × Db}
      → BookEnds.Books clock ids location selection phone db r
      → with_status i st db.payments ≤ with_status i st r.1.payments
  book_keeps BookEnds.refused = omega arith
  book_keeps {db = db} (BookEnds.granted found c n h l f) =
      omega (arith, count-append (λ p. p.id == i && payment_is p.status st) db.payments)

  finish_keeps :
      {clock : Clock} {rental : Text} {db : Db} {r : Result RepoError Finished × Db}
      → FinishEnds.Finishes clock rental db r
      → with_status i st db.payments ≤ with_status i st r.1.payments
  unfolding close_rental
  finish_keeps FinishEnds.refused = omega arith
  finish_keeps (FinishEnds.closes found c) = omega arith

  open_keeps :
      {clock : Clock} {rental : Text} {db : Db} {r : Result RepoError Opened × Db}
      → FinishEnds.Opens clock rental db r
      → with_status i st db.payments ≤ with_status i st r.1.payments
  unfolding refresh_payment_status
  open_keeps {clock} {rental} {db} FinishEnds.shut =
      refresh_keeps clock.db_now (λ p. holds_text p.rental_id rental) db.payments
  open_keeps {clock} {rental} {db} (FinishEnds.opens found numbered last paid) =
      refresh_keeps clock.db_now (λ p. holds_text p.rental_id rental) db.payments

  Step_keeps :
      {db after : Db}
      → IsConsistent db
      → Step db after
      → with_status i st db.payments ≤ with_status i st after.payments
  unfolding cleanup_expired_selections
  Step_keeps v (sweep now) = omega arith
  Step_keeps {db} v (select clock skip selection location size) =
      select_keeps (SelectEnds.create_cell_selection_cases clock skip selection location size db)
  Step_keeps {db} v (book clock ids location selection phone) = book_keeps (
      BookEnds.create_booking_cases clock ids location selection phone db
        (v.selection_once selection))
  Step_keeps {db} v (pay now payment) = Refreshed_keeps (get_payment-Refreshed now db payment)
  Step_keeps {db} v (check now location code) =
      Refreshed_keeps (check-Refreshed now db location code)
  Step_keeps {db} v (unlock clock rental) =
      open_keeps (FinishEnds.open_rental_cases clock rental db)
  Step_keeps {db} v (finish clock rental ends) =
      finish_keeps (FinishEnds.finish_rental_cases clock rental db)

-- A payment in a status other than `pending`, such as a paid one, keeps it: through every run of the
-- rental flow from a consistent database that ends only active rentals, the number of payments with
-- a given id in that status never falls.
pub Reach-final_stays :
    {db after : Db} (i : ℕ) (st : PaymentStatus)
    → payment_is st pending ≡ false
    → IsConsistent db
    → Reach db after
    → with_status i st db.payments ≤ with_status i st after.payments
Reach-final_stays i st final v here = omega arith
Reach-final_stays i st final v (next r s) =
    omega
      (arith, Reach-final_stays i st final v r, Step_keeps i st final (Reach-IsConsistent v r) s)
