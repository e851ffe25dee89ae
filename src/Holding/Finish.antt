-- ===== src/Holding/Finish.antt =====
-- `FinishRental` against the invariant, for a rental that is active and for one that has ended.
use locker.Prelude.{ℕ, ◌+◌, ◌≤◌, ◌≡◌, refl, holds_text, Bool, true, some, Text, ◌==◌, bit, arith}
use locker.Table.{find, count}
use locker.Table.Counting.{count-update, count_of_row, find-true, find_of_count}
use locker.Table.Unique.{find_unique}
use locker.Domain.{
  free, reserved, occupied, locker_is, session_is, selected, active, closed, Locker, StorageSession,
}
use locker.Store.{Db, Clock, RepoError, Result, ok}
use locker.Rental.Select.{set_status}
use locker.Rental.Book.{has_rental}
use locker.Rental.Finish.{Finished, close_session, close_rental, finish_rental}
use locker.Rental.Finish.Outcomes.{
  Finishes, refused, closes, finish_rental_cases, finish_done, finished,
}
use locker.Holding.Cleanup.{is_in_once}
use locker.Holding.{is_on, is_in, IsConsistent}

module _ (clock : Clock) (rental : Text) (db : Db) (v : IsConsistent db) (s : StorageSession)
    (cell : ℕ) (found : find (has_rental rental) db.sessions ≡ some s)
    (at_cell : s.locker_cell_id ≡ some cell) where
  abbrev after : Db
  after = close_rental clock rental cell db

  sessions_moved :
      (p : StorageSession → Bool)
      → count p after.sessions + bit (p s) ≡ count p db.sessions + bit (p (close_session clock s))
  unfolding close_rental
  sessions_moved p =
      count-update p (has_rental rental) (close_session clock) db.sessions (v.rental_once rental)
        found

  cells_moved :
      (p : Locker → Bool) {l : Locker}
      → find (λ l. l.id == cell) db.lockers ≡ some l
      → count p after.lockers + bit (p l)
        ≡ count p db.lockers + bit (p (set_status free clock.db_now l))
  unfolding close_rental
  cells_moved p e =
      count-update p (λ l. l.id == cell) (set_status free clock.db_now) db.lockers
        (v.cell_once cell) e

  -- The cell of an active rental is occupied.
  cell_row :
      1 ≤ count (is_on active cell) db.sessions
      → (l : Locker) × (find (λ l. l.id == cell) db.lockers ≡ some l)
        × ((l.id == cell) ≡ true)
        × (locker_is l.status occupied ≡ true)
  cell_row held =
      let (l, e) =
        find_of_count (is_in occupied cell) db.lockers
          (omega (arith, held, v.occupied_held cell)) in
      (
        l,
        find_unique (λ l. l.id == cell) (λ l. locker_is l.status occupied) db.lockers
            (v.cell_once cell) e,
        ground (arith, find-true (is_in occupied cell) db.lockers e),
        ground (arith, find-true (is_in occupied cell) db.lockers e),
      )

  module _ (ends : session_is s.status active ≡ true) where
    held : 1 ≤ count (is_on active cell) db.sessions
    held =
        count_of_row (is_on active cell) (has_rental rental) db.sessions found
          (ground (arith, ends))

    closed-IsConsistent : IsConsistent after
    unfolding close_session
    closed-IsConsistent =
        let (l, e, here, full) = cell_row held in
        record {
          cell_once = λ c. omega (arith, cells_moved (λ l. l.id == c) e, v.cell_once c);
          selection_once = λ k.
              omega (arith, sessions_moved (λ s. holds_text s.selection_id k), v.selection_once k);
          rental_once = λ k. omega (arith, sessions_moved (has_rental k), v.rental_once k);
          reserved_held = λ c. ground (
            arith,
            ends,
            here,
            full,
            sessions_moved (is_on selected c),
            cells_moved (is_in reserved c) e,
            v.reserved_held c,
          );
          occupied_held = λ c. ground (
            arith,
            ends,
            here,
            full,
            sessions_moved (is_on active c),
            cells_moved (is_in occupied c) e,
            v.occupied_held c,
          );
        }

-- The rental, where there is one, is active.
abbrev pub IsActive : Text → Db → Type 0
IsActive rental db =
    (s : StorageSession)
    → find (has_rental rental) db.sessions ≡ some s
    → session_is s.status active ≡ true

-- Ending an active rental keeps the invariant.
pub finish-IsConsistent :
    (clock : Clock) (rental : Text) (db : Db)
    → IsConsistent db
    → IsActive rental db
    → IsConsistent (finish_rental clock rental db).1
finish-IsConsistent clock rental db v ends = kept (finish_rental_cases clock rental db)
  where
    kept : {r : Result RepoError Finished × Db} → Finishes clock rental db r → IsConsistent r.1
    kept refused = v
    kept (closes {s} {cell} found at_cell) =
        closed-IsConsistent clock rental db v s cell found at_cell (ends s found)

-- A closed rental whose cell another rental holds: what a second call does to it.
module _ (clock : Clock) (rental : Text) (db : Db) (v : IsConsistent db) (s : StorageSession)
    (cell : ℕ) (found : find (has_rental rental) db.sessions ≡ some s)
    (at_cell : s.locker_cell_id ≡ some cell) (over : s.status ≡ closed)
    (other : count (is_on active cell) db.sessions ≡ 1) where
  still_held : count (is_on active cell) (close_rental clock rental cell db).sessions ≡ 1
  unfolding close_session
  still_held = ground (
    arith,
    other,
    over,
    sessions_moved clock rental db v s cell found at_cell (is_on active cell),
  )

  cell_freed :
      (count (is_in free cell) (close_rental clock rental cell db).lockers ≡ 1)
      × (count (is_in occupied cell) (close_rental clock rental cell db).lockers ≡ 0)
  cell_freed =
      let (l, e, here, full) =
        cell_row clock rental db v s cell found at_cell (omega (arith, other)) in
      let moved = λ (p : Locker → Bool). cells_moved clock rental db v s cell found at_cell p e in
      ground (
        arith,
        here,
        full,
        other,
        moved (is_in free cell),
        moved (is_in occupied cell),
        moved (λ l. l.id == cell),
        v.occupied_held cell,
        v.cell_once cell,
        is_in_once occupied cell db.lockers (v.cell_once cell),
        is_in_once free cell (close_rental clock rental cell db).lockers
            (ground (arith, here, moved (λ l. l.id == cell), v.cell_once cell)),
      )

-- Finishing a rental that is closed already succeeds, in a consistent database, and frees its old
-- cell although another rental is active on that cell, and the database is then not consistent.
pub finish_again :
    (clock : Clock) (rental : Text) (db : Db) (s : StorageSession) (cell : ℕ)
    → IsConsistent db
    → find (has_rental rental) db.sessions ≡ some s
    → s.locker_cell_id ≡ some cell
    → s.status ≡ closed
    → count (is_on active cell) db.sessions ≡ 1
    → ((finish_rental clock rental db).0 ≡ ok (finished clock rental db))
      × (count (is_on active cell) (finish_rental clock rental db).1.sessions ≡ 1)
      × (count (is_in free cell) (finish_rental clock rental db).1.lockers ≡ 1)
      × ¬ IsConsistent (finish_rental clock rental db).1
finish_again clock rental db s cell v found at_cell over other =
    rw (finish_done clock rental db found at_cell) (
      refl,
      still_held clock rental db v s cell found at_cell over other,
      (cell_freed clock rental db v s cell found at_cell over other).0,
      λ w. absurd (
          omega (
            arith,
            w.occupied_held cell,
            still_held clock rental db v s cell found at_cell over other,
            (cell_freed clock rental db v s cell found at_cell over other).1,
          )),
    )
