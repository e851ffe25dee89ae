-- ===== src/Holding/Select.antt =====
-- `CreateCellSelection` against the invariant, and its choice of a cell.
use locker.Prelude.{
  ℕ, ◌≤◌, ◌≡◌, refl, inl, inr, Bool, true, false, ◌&&◌, some, List, [], ◌∷◌, ◌++◌, Text, ◌==◌,
  text_eq, eq_of_text_eq, holds_text, arith, Bool-cases,
}
use locker.Table.{update, filter, count, exists}
use locker.Table.Ordered.{least, least_All, filter-All}
use locker.Table.Counting.{
  count-snoc, find-true, count-update, count-update_same, count_of_exists, count_each,
  find_of_count, All-filter,
}
use locker.Domain.{free, reserved, occupied, locker_is, selected, active, Locker, StorageSession}
use locker.Store.{Db, Clock, RepoError, Result}
use locker.Rental.Select.{
  set_status, is_candidate, new_selection, cleanup_expired_selections, create_cell_selection,
  Selection,
}
use locker.Rental.Select.Outcomes.{held_for, Selects, refused, granted, create_cell_selection_cases}
use locker.Holding.{is_on, is_in, IsConsistent}
use locker.Holding.Cleanup.{is_in_once, cleanup-IsConsistent}

-- What the query's condition says of the cell that it finds, and that the table has it.
candidate_lem :
    (location : ℕ) (size : Text) (skip : ℕ → Bool) (ls : List Locker) {cell : Locker}
    → least (λ l. l.locker_no) (filter (is_candidate location size skip) ls) ≡ some cell
    → (locker_is cell.status free ≡ true) × (1 ≤ count (is_in free cell.id) ls)
unfolding is_candidate
candidate_lem location size skip ls {cell} e = (ground (arith, met), counted (ground (arith, met)))
  where
    met : is_candidate location size skip cell ≡ true
    met =
        least_All (λ l. l.locker_no) (λ l. is_candidate location size skip l ≡ true)
          (filter (is_candidate location size skip) ls)
          (filter-All (is_candidate location size skip) ls) e

    counted : is_in free cell.id cell ≡ true → 1 ≤ count (is_in free cell.id) ls
    counted =
        least_All (λ l. l.locker_no)
          (λ l. is_in free cell.id l ≡ true → 1 ≤ count (is_in free cell.id) ls)
          (filter (is_candidate location size skip) ls)
          (All-filter (λ l. is_in free cell.id l ≡ true → 1 ≤ count (is_in free cell.id) ls)
            (is_candidate location size skip) ls (count_each (is_in free cell.id) ls))
          e

module _ (clock : Clock) (selection : Text) (size : Text) (cell : Locker) (db : Db) where
  -- Reserving a free cell and writing its selection keeps the invariant.
  held_for-IsConsistent :
      IsConsistent db
      → 1 ≤ count (is_in free cell.id) db.lockers
      → exists (λ s. holds_text s.selection_id selection) db.sessions ≡ false
      → IsConsistent (held_for clock selection size cell db)
  unfolding new_selection
  held_for-IsConsistent v there new = record {
    cell_once = λ c. rw (lockers_same (λ l. l.id == c) (λ l e. refl)) (v.cell_once c);
    selection_once = selection_once;
    rental_once = λ k.
        omega (arith, count-snoc (λ s. holds_text s.rental_id k) db.sessions row, v.rental_once k);
    reserved_held = reserved_held;
    occupied_held = λ c. omega (
      arith,
      count-snoc (is_on active c) db.sessions row,
      v.occupied_held c,
      lockers_same (is_in occupied c) (λ l e. ground arith),
    );
  }
    where
      hit : Locker → Bool
      hit l = l.id == cell.id && locker_is l.status free

      lockers_same :
          (p : Locker → Bool)
          → ((l : Locker) → hit l ≡ true → p (set_status reserved clock.db_now l) ≡ p l)
          → count p (update hit (set_status reserved clock.db_now) db.lockers) ≡ count p db.lockers
      lockers_same p h = count-update_same p hit (set_status reserved clock.db_now) db.lockers h

      row : StorageSession
      row = new_selection clock selection size cell db.next_session

      selection_once :
          (k : Text) → count (λ s. holds_text s.selection_id k) (db.sessions ++ row ∷ []) ≤ 1
      selection_once k = elim (Bool-cases (text_eq selection k)) [
        | inl e ↦ ground (
          arith,
          count-snoc (λ s. holds_text s.selection_id k) db.sessions row,
          rw (eq_of_text_eq selection k e) at
              (count_of_exists (λ s. holds_text s.selection_id selection) db.sessions new),
        )
        | inr e ↦ ground (
          arith,
          e,
          count-snoc (λ s. holds_text s.selection_id k) db.sessions row,
          v.selection_once k,
        )
      ]

      reserved_held :
          (c : ℕ)
          → count (is_on selected c) (db.sessions ++ row ∷ [])
            ≡ count (is_in reserved c) (update hit (set_status reserved clock.db_now) db.lockers)
      reserved_held c =
          let (l, found) = find_of_count hit db.lockers there in
          ground (
            arith,
            find-true hit db.lockers found,
            count-snoc (is_on selected c) db.sessions row,
            v.reserved_held c,
            count-update (is_in reserved c) hit (set_status reserved clock.db_now) db.lockers
                (is_in_once free cell.id db.lockers (v.cell_once cell.id)) found,
          )

-- A selection keeps the invariant, whatever its outcome.
pub select-IsConsistent :
    (clock : Clock) (skip : ℕ → Bool) (selection : Text) (location : ℕ) (size : Text) (db : Db)
    → IsConsistent db
    → IsConsistent (create_cell_selection clock skip selection location size db).1
select-IsConsistent clock skip selection location size db v =
    kept (create_cell_selection_cases clock skip selection location size db)
  where
    kept :
        {r : Result RepoError Selection × Db}
        → Selects clock skip selection location size db r
        → IsConsistent r.1
    kept refused = v
    kept (granted {cell = cell} found fresh) =
        held_for-IsConsistent clock selection size cell (cleanup_expired_selections clock.db_now db)
          (cleanup-IsConsistent clock.db_now db v)
          (candidate_lem location size skip (cleanup_expired_selections clock.db_now db).lockers
            found).1
          fresh
