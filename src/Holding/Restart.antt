-- ===== src/Holding/Restart.antt =====
-- What a start of the server does to those who hold a demo cell: EnsureDemoData of
-- internal/repository/rental_flow_repository.go against the invariant of Holding.
pub mod Strands
pub mod Calm
use mathlib.Core.Path.{subst}
use locker.Prelude.{
  ℕ, ◌+◌, ◌≤◌, ◌≡◌, refl, Bool, true, false, ◌&&◌, not, List, [], ◌∷◌, Text, ◌==◌, arith, some,
  none, ap, sym, bit, ◌∙◌, Bool-cases, ◌⊎◌, inl, inr,
}
use locker.Table.{find, count, update, exists}
use locker.Table.Counting.{
  count-snoc, count_of_exists, count_mono, count-update_same, find-true, find_of_count,
  count_of_row, count_pos,
}
use locker.Domain.{LockerStatus, free, reserved, occupied, locker_is, selected, active, Locker}
use locker.Store.{Db, epoch}
use locker.Rental.Select.{
  demo_location, demo_rows, is_numbered, insert_demo_location, upsert_demo_cell, upsert_demo_cells,
  ensure_demo_data,
}
use locker.Holding.{is_on, is_in, IsConsistent}

-- Cells in a status that is not free, among those that have something else too.
module _ (st : LockerStatus) (held : locker_is free st ≡ false) (now : ℕ) where
  abbrev in_status : (Locker → Bool) → Locker → Bool
  in_status g l = g l && locker_is l.status st

  abbrev other : ℕ → ℕ → Locker → Bool
  other c n l = l.id == c && not (is_numbered demo_location n l)

  abbrev as_demo : Text → Locker → Locker
  as_demo size l = record l {
    size = size;
    status = free;
    hardware_id = none;
    is_active = true;
    updated_at = epoch now;
  }

  not_held : (b : Bool) → (b && locker_is free st) ≡ false
  not_held b = ground (arith, held)

  freed_le :
      (g q : Locker → Bool) (size : Text) (ls : List Locker)
      → count (in_status g) (update q (as_demo size) ls) ≤ count (in_status g) ls
  unfolding count update
  freed_le g q size [] = omega arith
  freed_le g q size (l ∷ ls) = ground (arith, freed_le g q size ls, not_held (g (as_demo size l)))

  freed_zero :
      (c n : ℕ) (size : Text) (ls : List Locker)
      → count (in_status (other c n)) ls ≡ 0
      → count (is_in st c) (update (is_numbered demo_location n) (as_demo size) ls) ≡ 0
  unfolding count update
  freed_zero c n size [] h = refl
  freed_zero c n size (l ∷ ls) h = elim (Bool-cases (is_numbered demo_location n l)) [
    | inl hit ↦ ground (arith, h, hit, freed_zero c n size ls, not_held (l.id == c))
    | inr miss ↦ ground (arith, h, miss, freed_zero c n size ls)
  ]

  apart :
      (c n : ℕ) (ls : List Locker)
      → count (is_in st c) ls
        ≤ count (in_status (other c n)) ls + count (is_numbered demo_location n) ls
  unfolding count
  apart c n [] = omega arith
  apart c n (l ∷ ls) = ground (arith, apart c n ls)

  abbrev new_demo : ℕ → ℕ → Text → Locker
  new_demo id n size = record {
    id = id;
    location_id = demo_location;
    locker_no = n;
    size = size;
    status = free;
    hardware_id = none;
    is_active = true;
    price = 90000;
    updated_at = epoch now;
    last_event_at = none;
  }

  -- An upsert puts no further cell into the status.
  upsert_le :
      (g : Locker → Bool) (n : ℕ) (size : Text) (db : Db)
      → count (in_status g) (upsert_demo_cell now (n, size) db).lockers
        ≤ count (in_status g) db.lockers
  unfolding upsert_demo_cell
  upsert_le g n size db = elim (Bool-cases (exists (is_numbered demo_location n) db.lockers)) [
    | inl h ↦ rw h (freed_le g (is_numbered demo_location n) size db.lockers)
    | inr h ↦ rw h (
        omega (
          arith,
          count-snoc (in_status g) db.lockers (new_demo db.next_locker n size),
          ap bit (not_held (g (new_demo db.next_locker n size))),
        ))
  ]

  -- The cells of its number are not in the status behind it.
  upsert_frees :
      (c n : ℕ) (size : Text) (db : Db)
      → count (in_status (other c n)) db.lockers ≡ 0
      → count (is_in st c) (upsert_demo_cell now (n, size) db).lockers ≡ 0
  unfolding upsert_demo_cell
  upsert_frees c n size db z = elim (Bool-cases (exists (is_numbered demo_location n) db.lockers)) [
    | inl h ↦ rw h (freed_zero c n size db.lockers z)
    | inr h ↦ rw h (
        omega (
          arith,
          count-snoc (is_in st c) db.lockers (new_demo db.next_locker n size),
          z,
          ap bit (not_held (db.next_locker == c)),
          apart c n db.lockers,
          count_of_exists (is_numbered demo_location n) db.lockers h,
        ))
  ]

  upserts_le :
      (g : Locker → Bool) (rs : List (ℕ × Text)) (db : Db)
      → count (in_status g) (upsert_demo_cells now rs db).lockers ≤ count (in_status g) db.lockers
  unfolding upsert_demo_cells
  upserts_le g [] db = omega arith
  upserts_le g ((n, size) ∷ rs) db =
      omega (arith, upserts_le g rs (upsert_demo_cell now (n, size) db), upsert_le g n size db)

  upserts_free :
      (c n : ℕ) (rs : List (ℕ × Text)) (db : Db)
      → exists (λ r. r.0 == n) rs ≡ true
      → count (in_status (other c n)) db.lockers ≡ 0
      → count (is_in st c) (upsert_demo_cells now rs db).lockers ≡ 0
  unfolding upsert_demo_cells exists
  upserts_free c n [] db e z = cc
  upserts_free c n ((m, size) ∷ rs) db e z = elim (Bool-cases (m == n)) [
    | inl h ↦
        let same : n ≡ m = ground (arith, h) in
        let z' = subst (λ k. count (in_status (other c k)) db.lockers ≡ 0) same z in
        omega (
          arith,
          upsert_frees c m size db z',
          upserts_le (λ l. l.id == c) rs (upsert_demo_cell now (m, size) db),
        )
    | inr h ↦
        upserts_free c n rs (upsert_demo_cell now (m, size) db) (ground (arith, e, h))
          (omega (arith, z, upsert_le (other c n) m size db))
  ]

  others_none :
      (c n : ℕ) (ls : List Locker) {cell : Locker}
      → count (λ l. l.id == c) ls ≤ 1
      → find (λ l. l.id == c) ls ≡ some cell
      → is_numbered demo_location n cell ≡ true
      → count (in_status (other c n)) ls ≡ 0
  unfolding count find
  others_none c n [] u e h = refl
  others_none c n (l ∷ ls) {cell} u e h = elim (Bool-cases (l.id == c)) [
    | inl hit ↦
        let same : cell ≡ l = ground (arith, e, hit) in
        let numbered = subst (λ k. is_numbered demo_location n k ≡ true) same h in
        ground (
          arith,
          hit,
          u,
          numbered,
          count_mono (in_status (other c n)) (λ k. k.id == c) ls (λ k g. ground (arith, g)),
        )
    | inr miss ↦ ground (
      arith,
      miss,
      others_none c n ls {cell = cell} (ground (arith, u, miss)) (ground (arith, e, miss)) h,
    )
  ]

upserts_sessions :
    (now : ℕ) (rs : List (ℕ × Text)) (db : Db)
    → (upsert_demo_cells now rs db).sessions ≡ db.sessions
unfolding upsert_demo_cells upsert_demo_cell
upserts_sessions now [] db = refl
upserts_sessions now ((n, size) ∷ rs) db =
    upserts_sessions now rs (upsert_demo_cell now (n, size) db) ∙ one n size
  where
    one : (n : ℕ) (size : Text) → (upsert_demo_cell now (n, size) db).sessions ≡ db.sessions
    one n size = ground arith

module _ (now c n : ℕ) (db : Db) where
  located : (insert_demo_location now db).lockers ≡ db.lockers
  unfolding insert_demo_location
  located = ground arith

  located_sessions : (insert_demo_location now db).sessions ≡ db.sessions
  unfolding insert_demo_location
  located_sessions = ground arith
