-- ===== src/Rental/Select/Choice.antt =====
-- Which cell `CreateCellSelection` gives, and when it gives one.
use mathlib.Core.List.{Mem}
use locker.Prelude.{
  ℕ, ◌≤◌, ◌≡◌, refl, Bool, true, false, List, [], ◌∷◌, Text, All, ◌==◌, arith, Option-cases, inl,
  inr,
}
use locker.Table.{count, exists, filter}
use locker.Table.Ordered.{least-none}
use locker.Domain.{free, Locker}
use locker.Strings.{to_upper}
use locker.Store.{Db, Clock, RepoError, ok, err}
use locker.Store.Rollback.{transaction-err}
use locker.Rental.Select.{
  cleanup_expired_selections, is_candidate, create_cell_selection, select_body, Selection,
}
use locker.Rental.Select.Outcomes.{answer_for, swept, candidate, is_taken, cell_reserved}

filter_nothing : (p : Locker → Bool) (ls : List Locker) → filter p ls ≡ [] → count p ls ≡ 0
unfolding filter count
filter_nothing p [] e = refl
filter_nothing p (l ∷ ls) e = ground (arith, filter_nothing p ls, e)

-- A selection that fails leaves the database as it was.
pub create_cell_selection-err :
    (clock : Clock) (skip : ℕ → Bool) (selection : Text) (location : ℕ) (size : Text) (db : Db)
    {e : RepoError}
    → (create_cell_selection clock skip selection location size db).0 ≡ err e
    → (create_cell_selection clock skip selection location size db).1 ≡ db
unfolding create_cell_selection
create_cell_selection-err clock skip selection location size db h =
    transaction-err (select_body clock skip selection location size) db h

module _ (clock : Clock) (skip : ℕ → Bool) (selection : Text) (location : ℕ) (size : Text)
    (db : Db) where
  -- The cells after the clean-up, among which one is looked for.
  abbrev pub cells : List Locker
  cells = (swept clock skip selection location size db).lockers

  -- The answer is for a cell of the database that is of the location and the size, free, active and not locked by
  -- another transaction, and that has the smallest number of those.
  pub record IsChosen (answer : Selection) : Type 0 where
    pub cell : Locker
    pub listed : Mem cell cells
    pub located : cell.location_id ≡ location
    pub sized : to_upper cell.size ≡ to_upper size
    pub was_free : cell.status ≡ free
    pub is_in_use : cell.is_active ≡ true
    pub unlocked : skip cell.id ≡ false
    pub lowest :
        All (λ l. is_candidate location size skip l ≡ true → cell.locker_no ≤ l.locker_no) cells
    pub answered : answer ≡ answer_for clock selection location size cell

  -- A selection of a location that exists, with an id that is not taken, is granted where there is a
  -- candidate.
  pub create_cell_selection-finds :
      exists (λ l. l.id == location) db.locations ≡ true
      → is_taken clock skip selection location size db ≡ false
      → 1 ≤ count (is_candidate location size skip) cells
      → (cell : Locker) × ((create_cell_selection clock skip selection location size db).0
          ≡ ok (answer_for clock selection location size cell))
  unfolding cleanup_expired_selections
  create_cell_selection-finds known fresh h =
      elim (Option-cases (candidate clock skip selection location size db)) [
        | inl e ↦ absurd (
            omega (
              arith,
              h,
              filter_nothing (is_candidate location size skip) cells (
                  least-none (λ l. l.locker_no) (filter (is_candidate location size skip) cells) e),
            ))
        | inr (cell, e) ↦
            (cell, rw (cell_reserved clock skip selection location size db cell known e fresh) refl)
      ]
