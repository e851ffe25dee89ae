-- ===== src/Holding/Restart/Calm.antt =====
-- A start of the server while nobody holds a demo cell: EnsureDemoData of
-- internal/repository/rental_flow_repository.go against the invariant of Holding.
use locker.Prelude.{
  ℕ, suc, ◌≤◌, ◌≡◌, refl, Bool, false, ◌&&◌, List, [], ◌∷◌, All, All-mono, Text, ◌==◌, leb, arith,
  ap, sym, bit, ◌∙◌, Bool-cases, inl, inr,
}
use locker.Table.{count, update, exists}
use locker.Table.Counting.{count-snoc, count-update_same, count_mono}
use locker.Domain.{LockerStatus, free, reserved, occupied, locker_is, Locker}
use locker.Store.{Db}
use locker.Rental.Select.{
  demo_location, demo_rows, is_numbered, insert_demo_location, upsert_demo_cell, upsert_demo_cells,
  ensure_demo_data,
}
use locker.Holding.{is_in, IsConsistent}
use locker.Holding.Restart.{
  in_status, as_demo, new_demo, not_held, upsert_le, upserts_sessions, located, located_sessions,
}

-- The sequence of the cells' ids is ahead of them.
abbrev pub IsAhead : Db → Type 0
IsAhead db = count (λ l. leb db.next_locker l.id) db.lockers ≡ 0

-- No cell with the number of a demo cell is in a status.
abbrev pub Idle : LockerStatus → Db → Type 0
Idle st db =
    All (λ r. count (λ l. is_numbered demo_location r.0 l && locker_is l.status st) db.lockers ≡ 0)
      demo_rows

module _ (now : ℕ) where
  -- Nothing counts differently behind an upsert of cells that are not in a status.
  module _ (st : LockerStatus) (held : locker_is free st ≡ false) where
    same_in :
        (c : ℕ) (q : Locker → Bool) (size : Text) (ls : List Locker)
        → count (in_status st held now q) ls ≡ 0
        → count (is_in st c) (update q (as_demo st held now size) ls) ≡ count (is_in st c) ls
    unfolding count update
    same_in c q size [] z = refl
    same_in c q size (l ∷ ls) z = elim (Bool-cases (q l)) [
      | inl hit ↦ ground (arith, z, hit, same_in c q size ls, held)
      | inr miss ↦ ground (arith, z, miss, same_in c q size ls)
    ]

    upsert_same :
        (c n : ℕ) (size : Text) (db : Db)
        → count (in_status st held now (is_numbered demo_location n)) db.lockers ≡ 0
        → count (is_in st c) (upsert_demo_cell now (n, size) db).lockers
          ≡ count (is_in st c) db.lockers
    unfolding upsert_demo_cell
    upsert_same c n size db z =
        elim (Bool-cases (exists (is_numbered demo_location n) db.lockers)) [
          | inl h ↦ rw h (same_in c (is_numbered demo_location n) size db.lockers z)
          | inr h ↦ rw h (
              omega (
                arith,
                count-snoc (is_in st c) db.lockers (new_demo st held now db.next_locker n size),
                ap bit (not_held st held now (db.next_locker == c)),
              ))
        ]

    -- No cell of one of the rows is in the status.
    abbrev Spared : Db → ℕ × Text → Type 0
    Spared db (n, size) = count (in_status st held now (is_numbered demo_location n)) db.lockers ≡ 0

    upserts_same :
        (c : ℕ) (rs : List (ℕ × Text)) (db : Db)
        → All (Spared db) rs
        → count (is_in st c) (upsert_demo_cells now rs db).lockers ≡ count (is_in st c) db.lockers
    unfolding upsert_demo_cells
    upserts_same c [] db z = refl
    upserts_same c ((n, size) ∷ rs) db z =
        upserts_same c rs (upsert_demo_cell now (n, size) db) (
          All-mono (Spared db) (Spared (upsert_demo_cell now (n, size) db)) rs
            (λ (m, size') h.
              omega (arith, h, upsert_le st held now (is_numbered demo_location m) n size db))
            z.1)
        ∙ upsert_same c n size db z.0

  -- The ids stay, or the next one is added.
  upsert_ids :
      (n : ℕ) (size : Text) (db : Db)
      → IsAhead db
      → ((c : ℕ) → count (λ l. l.id == c) db.lockers ≤ 1)
      → IsAhead (upsert_demo_cell now (n, size) db)
        × ((c : ℕ) → count (λ l. l.id == c) (upsert_demo_cell now (n, size) db).lockers ≤ 1)
  unfolding upsert_demo_cell
  upsert_ids n size db ahead once =
      elim (Bool-cases (exists (is_numbered demo_location n) db.lockers)) [
        | inl h ↦ rw h (
          count-update_same (λ l. leb db.next_locker l.id) (is_numbered demo_location n)
                (as_demo reserved refl now size) db.lockers (λ l e. refl)
              ∙ ahead,
          λ c.
              rw
                (count-update_same (λ l. l.id == c) (is_numbered demo_location n)
                  (as_demo reserved refl now size) db.lockers (λ l e. refl))
                (once c),
        )
        | inr h ↦
            let new = new_demo reserved refl now db.next_locker n size in
            rw h (
              ground (
                arith,
                ahead,
                count-snoc (λ l. leb (suc db.next_locker) l.id) db.lockers new,
                count_mono (λ l. leb (suc db.next_locker) l.id) (λ l. leb db.next_locker l.id)
                    db.lockers (λ l e. ground (arith, e)),
              ),
              λ c. elim (Bool-cases (db.next_locker == c)) [
                | inl is ↦ ground (
                  arith,
                  ahead,
                  is,
                  count-snoc (λ l. l.id == c) db.lockers new,
                  count_mono (λ l. l.id == c) (λ l. leb db.next_locker l.id) db.lockers
                      (λ l e. ground (arith, e, is)),
                )
                | inr other ↦
                    ground (arith, other, once c, count-snoc (λ l. l.id == c) db.lockers new)
              ],
            )
      ]

  upserts_ids :
      (rs : List (ℕ × Text)) (db : Db)
      → IsAhead db
      → ((c : ℕ) → count (λ l. l.id == c) db.lockers ≤ 1)
      → (c : ℕ) → count (λ l. l.id == c) (upsert_demo_cells now rs db).lockers ≤ 1
  unfolding upsert_demo_cells
  upserts_ids [] db ahead once = once
  upserts_ids ((n, size) ∷ rs) db ahead once =
      let (ahead', once') = upsert_ids n size db ahead once in
      upserts_ids rs (upsert_demo_cell now (n, size) db) ahead' once'

  next_located : (db : Db) → (insert_demo_location now db).next_locker ≡ db.next_locker
  unfolding insert_demo_location
  next_located db = ground arith

  -- Where no demo cell is reserved or occupied, and the sequence of the cells' ids is ahead of them, a start
  -- of the server keeps a consistent database consistent.
  pub ensure_demo_data-IsConsistent :
      (db : Db)
      → IsConsistent db
      → IsAhead db
      → Idle reserved db
      → Idle occupied db
      → IsConsistent (ensure_demo_data now db)
  unfolding ensure_demo_data
  ensure_demo_data-IsConsistent db v ahead idle idle' = record {
    cell_once =
        upserts_ids demo_rows (insert_demo_location now db)
          (rw (located now 0 0 db, same_next) ahead) (rw (located now 0 0 db) v.cell_once);
    selection_once = λ k. rw same_sessions (v.selection_once k);
    rental_once = λ k. rw same_sessions (v.rental_once k);
    reserved_held = λ c. rw same_sessions (v.reserved_held c ∙ sym (same reserved refl c idle));
    occupied_held = λ c. rw same_sessions (v.occupied_held c ∙ sym (same occupied refl c idle'));
  }
    where
      same_next : (insert_demo_location now db).next_locker ≡ db.next_locker
      same_next = next_located db

      same_sessions : (ensure_demo_data now db).sessions ≡ db.sessions
      same_sessions =
          upserts_sessions now demo_rows (insert_demo_location now db) ∙ located_sessions now 0 0 db

      same :
          (st : LockerStatus) (held : locker_is free st ≡ false) (c : ℕ)
          → Idle st db
          → count (is_in st c) (ensure_demo_data now db).lockers ≡ count (is_in st c) db.lockers
      same st held c i =
          upserts_same st held c demo_rows (insert_demo_location now db) (rw (located now 0 0 db) i)
          ∙ ap (count (is_in st c)) (located now 0 0 db)
