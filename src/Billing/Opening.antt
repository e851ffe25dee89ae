-- ===== src/Billing/Opening.antt =====
-- What opens a rental: `OpenRental` after `refreshPaymentStatus`.
use mathlib.Core.Path.{subst}
use locker.Prelude.{ℕ, ◌≡◌, refl, true, some, Text, ◌==◌, holds_text, arith}
use locker.Table.{find}
use locker.Table.Kept.{updated, greatest-update}
use locker.Table.Unique.{find-update}
use locker.Domain.{PaymentStatus, closed, payment_is, StorageSession, Payment}
use locker.Store.{Db, Clock, Result, RepoError, ok, err, epoch}
use locker.Rental.Book.{has_rental}
use locker.Rental.Pay.{refresh, refresh_payment_status}
use locker.Rental.Finish.{
  Opened, Finished, open_rental, finish_rental, stamp_opened, close_session, close_rental,
}
use locker.Rental.Finish.Outcomes.{
  refreshed, last_of, finish_done, Opens, shut, opens, open_rental_cases, open_paid,
}

-- Where `OpenRental` succeeds, the rental exists and the last payment of its session, once
-- refreshed, is paid.
pub open_rental-paid :
    (clock : Clock) (rental : Text) (db : Db) {answer : Opened}
    → (open_rental clock rental db).0 ≡ ok answer
    → (s : StorageSession) × (p : Payment) × (find (has_rental rental) db.sessions ≡ some s)
      × (last_of clock rental db s ≡ some p)
      × (p.status ≡ PaymentStatus.paid)
unfolding refresh_payment_status
open_rental-paid clock rental db e = opened (open_rental_cases clock rental db) e
  where
    opened :
        {r : Result RepoError Opened × Db} {answer : Opened}
        → Opens clock rental db r
        → r.0 ≡ ok answer
        → (s : StorageSession) × (p : Payment) × (find (has_rental rental) db.sessions ≡ some s)
          × (last_of clock rental db s ≡ some p)
          × (p.status ≡ PaymentStatus.paid)
    opened shut h = absurd (clash h)
      where
        clash : {x : RepoError} {a : Opened} → Path (Result RepoError Opened) (err x) (ok a) → ⊥
        clash q = cc
    opened (opens {s} {number} {p} found numbered last paid) h =
        (s, p, found, last, ground (arith, paid))

module _ (first over again : Clock) (rental : Text) (db : Db) (s : StorageSession) (cell : ℕ) where
  -- The database behind the first opening, and behind the end of the rental.
  abbrev once : Db
  once = stamp_opened first rental (refreshed first rental db)

  abbrev ended : Db
  ended = close_rental over rental cell once

  abbrev stamped : Clock → StorageSession → StorageSession
  stamped clock s = record s { opened_at = some (epoch clock.app_now); updated_at = clock.db_now }

  found_once :
      find (has_rental rental) db.sessions ≡ some s
      → find (has_rental rental) once.sessions ≡ some (stamped first s)
  unfolding refresh_payment_status
  found_once e = find-update (has_rental rental) (stamped first) db.sessions (λ x h. h) e

  found_ended :
      find (has_rental rental) db.sessions ≡ some s
      → find (has_rental rental) ended.sessions ≡ some (close_session over (stamped first s))
  unfolding close_rental close_session
  found_ended e =
      find-update (has_rental rental) (close_session over) once.sessions (λ x h. h) (found_once e)

  -- A payment that is paid is still the last one, and is still paid.
  last_ended :
      {p : Payment}
      → last_of first rental db s ≡ some p
      → payment_is p.status PaymentStatus.paid ≡ true
      → (q : Payment) × (last_of again rental ended (close_session over (stamped first s)) ≡ some q)
        × (payment_is q.status PaymentStatus.paid ≡ true)
  unfolding close_rental close_session refresh_payment_status refresh
  last_ended {p} e paid = (
    updated (λ p. holds_text p.rental_id rental) (refresh again.db_now) p,
    greatest-update (λ p. holds_text p.rental_id rental) (refresh again.db_now) (λ p. p.created_at)
        (λ p. refl) (λ p. p.session_id == s.id) once.payments (λ p. refl) e,
    ground (arith, paid),
  )

  -- What is left of a rental that has been opened, ended and opened again.
  pub record IsReopened (number : ℕ) (end : Result RepoError Finished)
      (answer : Result RepoError Opened) (after : Db) : Type 0 where
    pub ends : end ≡ ok (record { rental_id = rental; finished_at = over.app_now })
    pub opens_again :
        answer ≡ ok (record { rental_id = rental; cell_number = number; opened_at = again.app_now })
    pub row : StorageSession
    pub found : find (has_rental rental) after.sessions ≡ some row
    pub is_closed : row.status ≡ closed
    pub finished_at : row.finished_at ≡ some (epoch over.app_now)
    pub opened_at : row.opened_at ≡ some (epoch again.app_now)

  reopens :
      (number : ℕ) (p : Payment)
      → find (has_rental rental) db.sessions ≡ some s
      → s.locker_cell_id ≡ some cell
      → s.cell_number ≡ some number
      → last_of first rental db s ≡ some p
      → payment_is p.status PaymentStatus.paid ≡ true
      → let (end, closing) = finish_rental over rental once in
        let (result, after) = open_rental again rental closing in IsReopened number end result after
  unfolding refresh_payment_status close_session
  reopens number p found located numbered last paid =
      let (q, last', paid') = last_ended last paid in
      rw (finish_done over rental once (found_once found) located) (
        rw
          (open_paid again rental ended (close_session over (stamped first s)) (found_ended found)
            number q numbered last' paid')
          (record {
            ends = refl;
            opens_again = refl;
            row = stamped again (close_session over (stamped first s));
            found =
                find-update (has_rental rental) (stamped again) ended.sessions (λ x h. h)
                  (found_ended found);
            is_closed = refl;
            finished_at = refl;
            opened_at = refl;
          }))

  reopened :
      {out : Result RepoError Opened × Db} {answer : Opened}
      → Opens first rental db out
      → find (has_rental rental) db.sessions ≡ some s
      → s.locker_cell_id ≡ some cell
      → out.0 ≡ ok answer
      → let (end, closing) = finish_rental over rental out.1 in
        let (result, after) = open_rental again rental closing in
        IsReopened answer.cell_number end result after
  unfolding refresh_payment_status
  reopened shut found located h = absurd (clash h)
    where
      clash : {x : RepoError} {a : Opened} → Path (Result RepoError Opened) (err x) (ok a) → ⊥
      clash q = cc
  reopened {answer = answer} (opens {s = row} {number} {p} at numbered last paid) found located h =
      let same : row ≡ s = ground (arith, at, found) in
      let shown : number ≡ answer.cell_number = ground (arith, h) in
      rw (← shown) (
        reopens number p found located (subst (λ k. k.cell_number ≡ some number) same numbered)
          (subst (λ k. last_of first rental db k ≡ some p) same last) paid)

  -- A rental whose cell is known and that has been opened once is opened again after it was finished,
  -- whatever the times: the end succeeds, the opening answers with the number of the same cell, and the
  -- session is closed and has the time of the second opening.
  pub open_rental-closed :
      {answer : Opened}
      → find (has_rental rental) db.sessions ≡ some s
      → s.locker_cell_id ≡ some cell
      → (open_rental first rental db).0 ≡ ok answer
      → let opened = (open_rental first rental db).1 in
        let (end, closing) = finish_rental over rental opened in
        let (result, after) = open_rental again rental closing in
        IsReopened answer.cell_number end result after
  unfolding refresh_payment_status
  open_rental-closed {answer} found located e =
      reopened (open_rental_cases first rental db) found located e
