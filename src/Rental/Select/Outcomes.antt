-- ===== src/Rental/Select/Outcomes.antt =====
-- How `CreateCellSelection` ends: each way it is refused, and what it has done when it is not.
use locker.Prelude.{
  ℕ, suc, ◌+◌, ◌≡◌, inl, inr, Bool, true, false, Option, none, some, [], ◌∷◌, ◌++◌, Text, ◌==◌,
  holds_text, arith, Bool-cases, Option-cases,
}
use locker.Strings.{to_lower}
use locker.Table.{filter, exists}
use locker.Table.Ordered.{least}
use locker.Domain.{Locker}
use locker.Store.{
  Db, Clock, RepoError, Result, ok, err, seconds, locker_not_found, no_cells_available,
  store_failed,
}
use locker.Rental.Select.{
  is_candidate, new_selection, insert_selection, reserve_cell, cleanup_expired_selections,
  create_cell_selection, Selection,
}

-- The database after a selection that went through, from the one after the clean-up.
abbrev pub held_for : Clock → Text → Text → Locker → Db → Db
held_for clock selection size cell db = record (reserve_cell cell.id clock.db_now db) {
  sessions = db.sessions ++ new_selection clock selection size cell db.next_session ∷ [];
  next_session = suc db.next_session;
}

-- The answer of a selection that went through.
abbrev pub answer_for : Clock → Text → ℕ → Text → Locker → Selection
answer_for clock selection location size cell = record {
  selection_id = selection;
  locker_id = location;
  size = to_lower size;
  cell_number = cell.locker_no;
  hold_expires_at = clock.app_now + seconds 90;
}

-- How a call ends: refused with the database as it was, or with the candidate reserved.
pub data Selects (clock : Clock) (skip : ℕ → Bool) (selection : Text) (location : ℕ) (size : Text)
    (db : Db) : Result RepoError Selection × Db → Type 0 where
  refused : {e : RepoError} → Selects clock skip selection location size db (err e, db)
  granted :
      {cell : Locker}
      → least
          (λ l. l.locker_no)
          (filter
            (is_candidate location size skip)
            (cleanup_expired_selections clock.db_now db).lockers)
        ≡ some cell
      → exists
          (λ s. holds_text s.selection_id selection)
          (cleanup_expired_selections clock.db_now db).sessions
        ≡ false
      → Selects clock skip selection location size db (
        ok (answer_for clock selection location size cell),
        held_for clock selection size cell (cleanup_expired_selections clock.db_now db),
      )

module _ (clock : Clock) (skip : ℕ → Bool) (selection : Text) (location : ℕ) (size : Text)
    (db : Db) where
  abbrev pub swept : Db
  swept = cleanup_expired_selections clock.db_now db

  abbrev pub candidate : Option Locker
  candidate = least (λ l. l.locker_no) (filter (is_candidate location size skip) swept.lockers)

  abbrev pub is_taken : Bool
  is_taken = exists (λ s. holds_text s.selection_id selection) swept.sessions

  pub unknown_locker :
      exists (λ l. l.id == location) swept.locations ≡ false
      → create_cell_selection clock skip selection location size db ≡ (err locker_not_found, db)
  unfolding create_cell_selection insert_selection
  unknown_locker e = ground arith

  pub no_cell :
      exists (λ l. l.id == location) swept.locations ≡ true
      → candidate ≡ none
      → create_cell_selection clock skip selection location size db ≡ (err no_cells_available, db)
  unfolding create_cell_selection insert_selection
  no_cell e f = ground arith

  pub taken_id :
      (cell : Locker)
      → exists (λ l. l.id == location) swept.locations ≡ true
      → candidate ≡ some cell
      → is_taken ≡ true
      → create_cell_selection clock skip selection location size db ≡ (err store_failed, db)
  unfolding create_cell_selection insert_selection
  taken_id cell e f g = ground arith

  pub cell_reserved :
      (cell : Locker)
      → exists (λ l. l.id == location) swept.locations ≡ true
      → candidate ≡ some cell
      → is_taken ≡ false
      → create_cell_selection clock skip selection location size db ≡ (
        ok (answer_for clock selection location size cell),
        held_for clock selection size cell swept,
      )
  unfolding create_cell_selection insert_selection
  cell_reserved cell e f g = ground arith

  pub create_cell_selection_cases :
      Selects clock skip selection location size db
        (create_cell_selection clock skip selection location size db)
  create_cell_selection_cases = elim (Bool-cases (exists (λ l. l.id == location) swept.locations)) [
    | inr e ↦ rw (unknown_locker e) refused
    | inl e ↦ elim (Option-cases candidate) [
      | inl f ↦ rw (no_cell e f) refused
      | inr (cell, f) ↦ elim (Bool-cases is_taken) [
        | inl g ↦ rw (taken_id cell e f g) refused
        | inr g ↦ rw (cell_reserved cell e f g) (granted f g)
      ]
    ]
  ]
