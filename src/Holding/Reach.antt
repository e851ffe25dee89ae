-- ===== src/Holding/Reach.antt =====
-- The rental flow as a step relation: the calls of the routes and of the clean-up, in any order and
-- at any times. A rental is finished only while it is active, which the code does not check.
use locker.Prelude.{ℕ, ◌+◌, ◌≤◌, Bool, List, [], ◌∷◌, Text, ◌==◌, arith}
use locker.Table.{count}
use locker.Domain.{reserved, occupied, selected, active, Locker}
use locker.Store.{Db, Clock}
use locker.Rental.Select.{cleanup_expired_selections, create_cell_selection}
use locker.Rental.Book.{BookingIds, create_booking}
use locker.Rental.Pay.{get_payment}
use locker.Rental.Access.{check_access_code}
use locker.Rental.Finish.{open_rental, finish_rental}
use locker.Holding.{is_on, is_in, IsConsistent}
use locker.Holding.Cleanup.{cleanup-IsConsistent}
use locker.Holding.Select.{select-IsConsistent}
use locker.Holding.Book.{book-IsConsistent}
use locker.Holding.Quiet.{pay-IsConsistent, check-IsConsistent, open-IsConsistent}
use locker.Holding.Finish.{IsActive, finish-IsConsistent}

pub data Step (db : Db) : Db → Type 0 where
  sweep : (now : ℕ) → Step db (cleanup_expired_selections now db)
  select :
      (clock : Clock) (skip : ℕ → Bool) (selection : Text) (location : ℕ) (size : Text)
      → Step db (create_cell_selection clock skip selection location size db).1
  book :
      (clock : Clock) (ids : BookingIds) (location : ℕ) (selection : Text) (phone : Text)
      → Step db (create_booking clock ids location selection phone db).1
  pay : (now : ℕ) (payment : Text) → Step db (get_payment now payment db).1
  check : (now location : ℕ) (code : Text) → Step db (check_access_code now location code db).1
  unlock : (clock : Clock) (rental : Text) → Step db (open_rental clock rental db).1
  finish :
      (clock : Clock) (rental : Text)
      → IsActive rental db
      → Step db (finish_rental clock rental db).1

pub data Reach (db : Db) : Db → Type 0 where
  here : Reach db db
  next : {t u : Db} → Reach db t → Step t u → Reach db u

pub Step-IsConsistent : {db after : Db} → Step db after → IsConsistent db → IsConsistent after
Step-IsConsistent {db} (sweep now) v = cleanup-IsConsistent now db v
Step-IsConsistent {db} (select clock skip selection location size) v =
    select-IsConsistent clock skip selection location size db v
Step-IsConsistent {db} (book clock ids location selection phone) v =
    book-IsConsistent clock ids location selection phone db v
Step-IsConsistent {db} (pay now payment) v = pay-IsConsistent now payment db v
Step-IsConsistent {db} (check now location code) v = check-IsConsistent now location code db v
Step-IsConsistent {db} (unlock clock rental) v = open-IsConsistent clock rental db v
Step-IsConsistent {db} (finish clock rental ends) v = finish-IsConsistent clock rental db v ends

-- From a consistent database every run of the rental flow that ends only active rentals, whatever
-- the order, the times, the ids drawn and the outcomes of the calls, leads to a consistent one.
pub Reach-IsConsistent : {db after : Db} → IsConsistent db → Reach db after → IsConsistent after
Reach-IsConsistent v here = v
Reach-IsConsistent v (next r s) = Step-IsConsistent s (Reach-IsConsistent v r)

-- A cell is not reserved and occupied at once.
statuses_apart :
    (c : ℕ) (ls : List Locker)
    → count (is_in reserved c) ls + count (is_in occupied c) ls ≤ count (λ l. l.id == c) ls
unfolding count
statuses_apart c [] = omega arith
statuses_apart c (l ∷ ls) = ground (arith, statuses_apart c ls)

-- No cell is ever held twice: in every database that the rental flow reaches from a consistent one,
-- ending only active rentals, the selections and the active rentals on a cell are together at most
-- one.
pub Reach-held_once :
    {db after : Db} (c : ℕ)
    → IsConsistent db
    → Reach db after
    → count (is_on selected c) after.sessions + count (is_on active c) after.sessions ≤ 1
Reach-held_once {db} {after} c v r =
    let w = Reach-IsConsistent v r in
    omega
      (arith, w.reserved_held c, w.occupied_held c, w.cell_once c, statuses_apart c after.lockers)
