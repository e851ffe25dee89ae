-- ===== src/Holding/Lapses.antt =====
-- The clean-up and a selection, seen from one cell.
use mathlib.Core.Path.{ap, sym, ◌∙◌}
use locker.Prelude.{
  ℕ, ◌≡◌, refl, Bool, ◌&&◌, some, Text, ◌==◌, arith, Bool-cases, inl, inr, ◌⊎◌, if◌then◌else◌,
}
use locker.Table.{find, update, exists}
use locker.Domain.{free, reserved, locker_is, Locker}
use locker.Store.{Db, Clock, Result, RepoError}
use locker.Rental.Select.{set_status, is_overdue_at, cleanup_expired_selections, Selection}
use locker.Rental.Select.Outcomes as SelectEnds
use locker.Holding.Moves.{CellMoves, stays, held, lapsed, CellMoved}
use locker.Holding.Rows.{find_id-update}

module _ (c : ℕ) (l : Locker) where
  -- The clean-up leaves a cell as it is or frees a reserved one.
  abbrev pub Swept : Db → Type 0
  Swept after =
      (k : Locker) × (find (λ x. x.id == c) after.lockers ≡ some k)
      × ((k ≡ l) ⊎ ((l.status ≡ reserved) × (k.status ≡ free)))

  pub cleanup-Swept :
      (now : ℕ) (db : Db)
      → find (λ k. k.id == c) db.lockers ≡ some l
      → Swept (cleanup_expired_selections now db)
  unfolding cleanup_expired_selections
  cleanup-Swept now db e =
      elim (Bool-cases
        (exists (is_overdue_at now l.id) db.sessions && locker_is l.status reserved)) [
          | inl hit ↦
              (set_status free now l, ground (arith, row, hit), inr (ground (arith, hit), refl))
          | inr miss ↦ (l, ground (arith, row, miss), inl refl)
        ]
    where
      row :
          find (λ x. x.id == c) (cleanup_expired_selections now db).lockers
          ≡ some (
              if exists (is_overdue_at now l.id) db.sessions && locker_is l.status reserved
              then set_status free now l
              else l)
      row =
          find_id-update c
            (λ x. exists (is_overdue_at now x.id) db.sessions && locker_is x.status reserved)
            (set_status free now) db.lockers {l = l} (λ x. refl) e

  swept_moves :
      (k : Locker)
      → (k ≡ l) ⊎ ((l.status ≡ reserved) × (k.status ≡ free))
      → CellMoves l.status k.status
  swept_moves k (inl eq) = stays (ap (λ (x : Locker). x.status) (sym eq))
  swept_moves k (inr (was, is)) = lapsed was is

  pub sweeps : (after : Db) → Swept after → CellMoved c l after
  sweeps after (k, e, m) = (k, e, swept_moves k m)

  -- A cell that lapses and is held again in the same call has not moved in all.
  reserve_after :
      (k : Locker)
      → (k ≡ l) ⊎ ((l.status ≡ reserved) × (k.status ≡ free))
      → k.status ≡ free
      → CellMoves l.status reserved
  reserve_after k (inl eq) f = held (ap (λ (x : Locker). x.status) (sym eq) ∙ f) refl
  reserve_after k (inr (was, is)) f = stays was

  reserves :
      (clock : Clock) (selection size : Text) (cell : Locker) (db : Db)
      → Swept db
      → CellMoved c l (SelectEnds.held_for clock selection size cell db)
  reserves clock selection size cell db (k, e, m) =
      elim (Bool-cases (k.id == cell.id && locker_is k.status free)) [
        | inl hit ↦ (
          set_status reserved clock.db_now k,
          ground (arith, kept, hit),
          reserve_after k m (ground (arith, hit)),
        )
        | inr miss ↦ (k, ground (arith, kept, miss), swept_moves k m)
      ]
    where
      kept :
          find
            (λ x. x.id == c)
            (update
              (λ x. x.id == cell.id && locker_is x.status free)
              (set_status reserved clock.db_now)
              db.lockers)
          ≡ some (
              if k.id == cell.id && locker_is k.status free
              then set_status reserved clock.db_now k
              else k)
      kept =
          find_id-update c (λ x. x.id == cell.id && locker_is x.status free)
            (set_status reserved clock.db_now) db.lockers {l = k} (λ x. refl) e

  pub selects :
      {clock : Clock} {skip : ℕ → Bool} {selection : Text} {location : ℕ} {size : Text} {db : Db}
      {r : Result RepoError Selection × Db}
      → SelectEnds.Selects clock skip selection location size db r
      → find (λ k. k.id == c) db.lockers ≡ some l
      → CellMoved c l r.1
  selects SelectEnds.refused e = (l, e, stays refl)
  selects {clock} {skip} {selection} {location} {size} {db} (SelectEnds.granted {cell} found new)
        e =
      reserves clock selection size cell (cleanup_expired_selections clock.db_now db)
        (cleanup-Swept clock.db_now db e)
