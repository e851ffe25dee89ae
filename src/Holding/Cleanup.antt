-- ===== src/Holding/Cleanup.antt =====
-- `CleanupExpiredSelections` against the invariant.
use locker.Prelude.{
  ℕ, ◌+◌, ◌≤◌, ◌≡◌, refl, inl, inr, Bool, true, false, ◌&&◌, List, [], ◌∷◌, ◌==◌, holds_text, arith,
  Bool-cases,
}
use locker.Table.{update, count, exists}
use locker.Table.Counting.{count-update_same, count_of_exists, count_exists, count_mono}
use locker.Domain.{
  LockerStatus, free, reserved, occupied, locker_is, selected, active, Locker, StorageSession,
}
use locker.Store.{Db}
use locker.Rental.Select.{is_overdue, is_overdue_at, expire, set_status, cleanup_expired_selections}
use locker.Holding.{is_on, is_in, IsConsistent}

-- The selections that stay and those that lapse on a cell.
count-expire :
    (now c : ℕ) (ss : List StorageSession)
    → count (is_on selected c) (update (is_overdue now) (expire now) ss)
        + count (is_overdue_at now c) ss
      ≡ count (is_on selected c) ss
unfolding count update
count-expire now c [] = omega arith
count-expire now c (s ∷ ss) = ground (arith, count-expire now c ss)

module _ (hit : ℕ → Bool) (now c : ℕ) where
  -- A cell that is not hit stays as it is.
  missed :
      (ls : List Locker)
      → hit c ≡ false
      → count
          (is_in reserved c)
          (update (λ l. hit l.id && locker_is l.status reserved) (set_status free now) ls)
        ≡ count (is_in reserved c) ls
  unfolding count update
  missed [] e = refl
  missed (l ∷ ls) e = ground (arith, missed ls e)

  -- A cell that is hit is reserved no more.
  freed :
      (ls : List Locker)
      → hit c ≡ true
      → count
          (is_in reserved c)
          (update (λ l. hit l.id && locker_is l.status reserved) (set_status free now) ls)
        ≡ 0
  unfolding count update
  freed [] e = refl
  freed (l ∷ ls) e = ground (arith, freed ls e)

-- At most one row of the cell is in a status.
pub is_in_once :
    (st : LockerStatus) (c : ℕ) (ls : List Locker)
    → count (λ l. l.id == c) ls ≤ 1
    → count (is_in st c) ls ≤ 1
is_in_once st c ls h =
    omega (arith, count_mono (is_in st c) (λ l. l.id == c) ls (λ l e. ground arith))

pub cleanup-IsConsistent :
    (now : ℕ) (db : Db) → IsConsistent db → IsConsistent (cleanup_expired_selections now db)
unfolding cleanup_expired_selections
cleanup-IsConsistent now db v = record {
  cell_once = λ c. rw (same_cells (λ l. l.id == c) (λ l e. refl)) (v.cell_once c);
  selection_once =
      λ k. rw (same_sessions (λ s. holds_text s.selection_id k) (λ s e. refl)) (v.selection_once k);
  rental_once =
      λ k. rw (same_sessions (λ s. holds_text s.rental_id k) (λ s e. refl)) (v.rental_once k);
  reserved_held = reserved_held;
  occupied_held = λ c.
      rw
        (
          same_sessions (is_on active c) (λ s e. ground arith),
          same_cells (is_in occupied c) (λ l e. ground arith),
        )
        (v.occupied_held c);
}
  where
    hit : ℕ → Bool
    hit c = exists (is_overdue_at now c) db.sessions

    same_sessions :
        (p : StorageSession → Bool)
        → ((s : StorageSession) → is_overdue now s ≡ true → p (expire now s) ≡ p s)
        → count p (update (is_overdue now) (expire now) db.sessions) ≡ count p db.sessions
    same_sessions p h = count-update_same p (is_overdue now) (expire now) db.sessions h

    same_cells :
        (p : Locker → Bool)
        → ((l : Locker)
            → (hit l.id && locker_is l.status reserved) ≡ true
            → p (set_status free now l) ≡ p l)
        → count p
            (update (λ l. hit l.id && locker_is l.status reserved) (set_status free now) db.lockers)
          ≡ count p db.lockers
    same_cells p h =
        count-update_same p (λ l. hit l.id && locker_is l.status reserved) (set_status free now)
          db.lockers h

    reserved_held :
        (c : ℕ)
        → count (is_on selected c) (update (is_overdue now) (expire now) db.sessions)
          ≡ count (is_in reserved c) (
              update
                (λ l. hit l.id && locker_is l.status reserved)
                (set_status free now)
                db.lockers)
    reserved_held c = elim (Bool-cases (hit c)) [
      | inl e ↦ omega (
        arith,
        freed hit now c db.lockers e,
        count_exists (is_overdue_at now c) db.sessions e,
        count-expire now c db.sessions,
        v.reserved_held c,
        is_in_once reserved c db.lockers (v.cell_once c),
      )
      | inr e ↦ omega (
        arith,
        missed hit now c db.lockers e,
        count_of_exists (is_overdue_at now c) db.sessions e,
        count-expire now c db.sessions,
        v.reserved_held c,
      )
    ]
