-- ===== src/Holding/Lifecycle.antt =====
-- The life of a cell: the rental flow, seen from one cell, is a small machine on its status.
use locker.Prelude.{
  ℕ, ◌≤◌, ◌≡◌, refl, Bool, true, some, List, Text, ◌==◌, arith, Bool-cases, inl, inr,
}
use locker.Table.{find, update, count}
use locker.Table.Counting.{count_of_row, find-true}
use locker.Domain.{LockerStatus, free, reserved, occupied, locker_is, selected, active, Locker}
use locker.Store.{Db, Clock, Result, RepoError}
use locker.Rental.Select.{set_status, cleanup_expired_selections}
use locker.Rental.Select.Outcomes as SelectEnds
use locker.Rental.Book.{Booking, BookingIds, has_rental, book_session}
use locker.Rental.Book.Outcomes.{wanted, booked as booked_db}
use locker.Rental.Book.Cases as BookEnds
use locker.Rental.Finish.{Opened, Finished, close_rental}
use locker.Rental.Finish.Outcomes as FinishEnds
use locker.Rental.Pay.{refresh_payment_status}
use locker.Holding.{is_on, is_in, IsConsistent}
use locker.Holding.Moves.{CellMoves, stays, booked, ended, CellRuns, unmoved, moved, CellMoved}
use locker.Holding.Rows.{held_row, find_id-update}
use locker.Holding.Quiet.{Refreshed, same, refreshed, get_payment-Refreshed, check-Refreshed}
use locker.Holding.Finish.{IsActive}
use locker.Holding.Reach.{
  Step, Reach, here, next, sweep, select, book, pay, check, unlock, finish, Reach-IsConsistent,
}
use locker.Holding.Lapses.{cleanup-Swept, sweeps, selects}

module _ (c : ℕ) (l : Locker) where
  -- An update of cells, where each row that it hits makes a move of its own.
  updated :
      (q : Locker → Bool) (st : LockerStatus) (now : ℕ) (ls : List Locker) (db : Db)
      → find (λ k. k.id == c) ls ≡ some l
      → db.lockers ≡ update q (set_status st now) ls
      → (q l ≡ true → CellMoves l.status st)
      → CellMoved c l db
  updated q st now ls db e shape m = elim (Bool-cases (q l)) [
    | inl hit ↦ (
      set_status st now l,
      rw shape
          (ground (arith, find_id-update c q (set_status st now) ls {l = l} (λ k. refl) e, hit)),
      m hit,
    )
    | inr miss ↦ (
      l,
      rw shape
          (ground (arith, find_id-update c q (set_status st now) ls {l = l} (λ k. refl) e, miss)),
      stays refl,
    )
  ]

  -- The cell of a session that holds it is in the status of the hold.
  is_held :
      (db : Db) (v : IsConsistent db) (st : LockerStatus) (cell : ℕ)
      → find (λ k. k.id == c) db.lockers ≡ some l
      → (l.id == cell) ≡ true
      → 1 ≤ count (is_in st cell) db.lockers
      → locker_is l.status st ≡ true
  is_held db v st cell e at_id h =
      let (k, f, is) = held_row db v st cell h in
      let here : cell ≡ c = ground (arith, at_id, find-true (λ x. x.id == c) db.lockers e) in
      ground (arith, rw here at f, e, is)

  ends :
      {clock : Clock} {rental : Text} {db : Db} {r : Result RepoError Finished × Db}
      → IsConsistent db
      → IsActive rental db
      → FinishEnds.Finishes clock rental db r
      → find (λ k. k.id == c) db.lockers ≡ some l
      → CellMoved c l r.1
  unfolding close_rental
  ends v on FinishEnds.refused e = (l, e, stays refl)
  ends {clock} {rental} {db} v on (FinishEnds.closes {s} {cell} found at_cell) e =
      updated (λ k. k.id == cell) free clock.db_now db.lockers (close_rental clock rental cell db) e
        refl
        (λ hit.
          let one : 1 ≤ count (is_in occupied cell) db.lockers = omega (
            arith,
            v.occupied_held cell,
            count_of_row (is_on active cell) (has_rental rental) db.sessions found
                (ground (arith, on s found, at_cell)),
          ) in
          ended (ground (arith, is_held db v occupied cell e hit one)) refl)

  books :
      {clock : Clock} {ids : BookingIds} {location : ℕ} {selection phone : Text} {db : Db}
      {r : Result RepoError Booking × Db}
      → IsConsistent db
      → BookEnds.Books clock ids location selection phone db r
      → find (λ k. k.id == c) db.lockers ≡ some l
      → CellMoved c l r.1
  books v BookEnds.refused e = (l, e, stays refl)
  books {clock} {ids} {location} {selection} {phone} {db} v
        (BookEnds.granted {s} {cell} {number} {hold} found at_cell numbered holds live fresh) e =
      updated (λ k. k.id == cell) occupied clock.db_now db.lockers
        (booked_db clock ids location selection phone db cell number
          (book_session clock ids phone cell number s))
        e refl
        (λ hit.
          let one : 1 ≤ count (is_in reserved cell) db.lockers = omega (
            arith,
            v.reserved_held cell,
            count_of_row (is_on selected cell) (wanted clock ids location selection phone db)
                db.sessions found (ground (arith, live, at_cell)),
          ) in
          booked (ground (arith, is_held db v reserved cell e hit one)) refl)

  opens :
      {clock : Clock} {rental : Text} {db : Db} {r : Result RepoError Opened × Db}
      → FinishEnds.Opens clock rental db r
      → find (λ k. k.id == c) db.lockers ≡ some l
      → CellMoved c l r.1
  unfolding refresh_payment_status
  opens FinishEnds.shut e = (l, e, stays refl)
  opens (FinishEnds.opens found numbered last paid) e = (l, e, stays refl)

  quiet :
      {now : ℕ} {db after : Db}
      → Refreshed now db after
      → find (λ k. k.id == c) db.lockers ≡ some l
      → CellMoved c l after
  unfolding refresh_payment_status
  quiet same e = (l, e, stays refl)
  quiet (refreshed rental) e = (l, e, stays refl)

-- One call of the rental flow, from a consistent database and with `finish` on an active rental, keeps
-- each cell in the table and leaves its status as it is or makes one move of it: a free cell becomes
-- reserved, a reserved one occupied or free, an occupied one free.
pub Step-CellMoved :
    {db after : Db} (c : ℕ) (l : Locker)
    → IsConsistent db
    → Step db after
    → find (λ k. k.id == c) db.lockers ≡ some l
    → CellMoved c l after
Step-CellMoved {db} c l v (sweep now) e =
    sweeps c l (cleanup_expired_selections now db) (cleanup-Swept c l now db e)
Step-CellMoved {db} c l v (select clock skip selection location size) e =
    selects c l (SelectEnds.create_cell_selection_cases clock skip selection location size db) e
Step-CellMoved {db} c l v (book clock ids location selection phone) e =
    books c l v
      (BookEnds.create_booking_cases clock ids location selection phone db
        (v.selection_once selection))
      e
Step-CellMoved {db} c l v (pay now payment) e = quiet c l (get_payment-Refreshed now db payment) e
Step-CellMoved {db} c l v (check now location code) e =
    quiet c l (check-Refreshed now db location code) e
Step-CellMoved {db} c l v (unlock clock rental) e =
    opens c l (FinishEnds.open_rental_cases clock rental db) e
Step-CellMoved {db} c l v (finish clock rental on) e =
    ends c l v on (FinishEnds.finish_rental_cases clock rental db) e

-- The rental flow refines the machine of `CellMoves`: in every run from a consistent database that
-- ends only active rentals, each cell stays in the table and its status goes by those moves alone,
-- free to reserved, reserved to occupied or back to free, occupied to free.
pub Reach-CellRuns :
    {db after : Db} (c : ℕ) (l : Locker)
    → IsConsistent db
    → Reach db after
    → find (λ k. k.id == c) db.lockers ≡ some l
    → (l' : Locker) × (find (λ k. k.id == c) after.lockers ≡ some l') × CellRuns l.status l'.status
Reach-CellRuns c l v here e = (l, e, unmoved)
Reach-CellRuns c l v (next r s) e =
    let (k, f, runs) = Reach-CellRuns c l v r e in
    let (k', g, m) = Step-CellMoved c k (Reach-IsConsistent v r) s f in (k', g, moved runs m)
