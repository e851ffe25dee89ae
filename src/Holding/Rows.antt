-- ===== src/Holding/Rows.antt =====
-- The row of a cell, from what the invariant counts.
use locker.Prelude.{
  ℕ, ◌≤◌, ◌≡◌, Bool, true, some, List, [], ◌∷◌, ◌==◌, arith, Bool-cases, inl, inr, if◌then◌else◌,
}
use locker.Table.{find, update, count}
use locker.Table.Counting.{find-true, find_of_count}
use locker.Table.Unique.{find_unique}
use locker.Domain.{LockerStatus, locker_is, Locker}
use locker.Store.{Db}
use locker.Holding.{is_in, IsConsistent}

-- A cell that is counted in a status is found by its id, in that status.
pub held_row :
    (db : Db)
    → IsConsistent db
    → (st : LockerStatus) (c : ℕ) → 1 ≤ count (is_in st c) db.lockers
    → (l : Locker) × (find (λ l. l.id == c) db.lockers ≡ some l) × (is_in st c l ≡ true)
held_row db v st c h =
    let (l, e) = find_of_count (is_in st c) db.lockers h in
    (
      l,
      find_unique (λ l. l.id == c) (λ l. locker_is l.status st) db.lockers (v.cell_once c) e,
      find-true (is_in st c) db.lockers e,
    )

-- The row with an id, after an update that leaves ids alone.
pub find_id-update :
    (c : ℕ) (q : Locker → Bool) (f : Locker → Locker) (ls : List Locker) {l : Locker}
    → ((k : Locker) → (f k).id ≡ k.id)
    → find (λ k. k.id == c) ls ≡ some l
    → find (λ k. k.id == c) (update q f ls) ≡ some (if q l then f l else l)
unfolding find update
find_id-update c q f [] keep e = cc
find_id-update c q f (k ∷ ks) {l} keep e = elim (Bool-cases (k.id == c)) [
  | inl hit ↦ let same : k ≡ l = ground (arith, hit, e) in rw (← same) (ground (arith, hit, keep k))
  | inr miss ↦ ground (arith, miss, keep k, e, find_id-update c q f ks {l = l} keep)
]
