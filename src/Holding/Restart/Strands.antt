-- ===== src/Holding/Restart/Strands.antt =====
-- What a start of the server leaves of the demo cells that somebody holds: EnsureDemoData of
-- internal/repository/rental_flow_repository.go.
use locker.Prelude.{
  ℕ, ◌+◌, ◌≤◌, ◌≡◌, refl, true, false, List, [], ◌∷◌, Text, ◌==◌, arith, some, ap, sym, ◌∙◌,
  Bool-cases, ◌⊎◌, inl, inr,
}
use locker.Table.{find, count, exists}
use locker.Table.Counting.{
  count-snoc, count-update_same, find-true, find_of_count, count_of_row, count_pos,
}
use locker.Domain.{LockerStatus, free, reserved, occupied, locker_is, selected, active, Locker}
use locker.Store.{Db}
use locker.Rental.Select.{
  demo_location, demo_rows, is_numbered, insert_demo_location, upsert_demo_cell, upsert_demo_cells,
  ensure_demo_data,
}
use locker.Holding.{is_on, is_in, IsConsistent}
use locker.Holding.Restart.{
  as_demo, new_demo, upserts_free, others_none, upserts_sessions, located, located_sessions,
}

-- No cell is lost.
upsert_keeps :
    (now c n : ℕ) (size : Text) (db : Db)
    → count (λ l. l.id == c) db.lockers
      ≤ count (λ l. l.id == c) (upsert_demo_cell now (n, size) db).lockers
unfolding upsert_demo_cell
upsert_keeps now c n size db = elim (Bool-cases (exists (is_numbered demo_location n) db.lockers)) [
  | inl h ↦ rw h (
      omega (
        arith,
        count-update_same (λ l. l.id == c) (is_numbered demo_location n)
            (as_demo reserved refl now size) db.lockers (λ l e. refl),
      ))
  | inr h ↦ rw h (
      omega (
        arith,
        count-snoc (λ l. l.id == c) db.lockers (new_demo reserved refl now db.next_locker n size),
      ))
]

upserts_keep :
    (now c : ℕ) (rs : List (ℕ × Text)) (db : Db)
    → count (λ l. l.id == c) db.lockers
      ≤ count (λ l. l.id == c) (upsert_demo_cells now rs db).lockers
unfolding upsert_demo_cells
upserts_keep now c [] db = omega arith
upserts_keep now c ((n, size) ∷ rs) db =
    omega (
      arith,
      upserts_keep now c rs (upsert_demo_cell now (n, size) db),
      upsert_keeps now c n size db,
    )

same_status : (st : LockerStatus) → locker_is st st ≡ true
same_status st = ground arith

free_or_not : (st : LockerStatus) → (st ≡ free) ⊎ (locker_is free st ≡ false)
free_or_not st = elim (Bool-cases (locker_is free st)) [
  | inl h ↦ inl (ground (arith, h))
  | inr h ↦ inr h
]

-- A cell of which no other status than `free` is counted is free.
free_row :
    (c : ℕ) (ls : List Locker) {l : Locker}
    → ((st : LockerStatus) → locker_is free st ≡ false → count (is_in st c) ls ≡ 0)
    → find (λ k. k.id == c) ls ≡ some l
    → l.status ≡ free
free_row c ls {l} none_else e = elim (free_or_not l.status) [
  | inl h ↦ h
  | inr h ↦
      let row : is_in l.status c l ≡ true =
        ground (arith, find-true (λ k. k.id == c) ls e, same_status l.status) in
      absurd (
        omega
          (arith, none_else l.status h, count_of_row (is_in l.status c) (λ k. k.id == c) ls e row))
]

-- A cell that is free while somebody holds it.
abbrev pub IsStranded : ℕ → Db → Db → Type 0
IsStranded c db after =
    (after.sessions ≡ db.sessions)
    × ((cell : Locker) × (find (λ l. l.id == c) after.lockers ≡ some cell) × (cell.status ≡ free))
    × ¬ IsConsistent after

module _ (now c n : ℕ) (db : Db) where
  -- A start of the server frees the demo cells, also those that are held: where a selection or an active
  -- rental is on a cell with one of their numbers, in a consistent database, the sessions stay as they
  -- are, the cell is free, and the database is consistent no more.
  pub ensure_demo_data-strands :
      {cell : Locker}
      → IsConsistent db
      → find (λ l. l.id == c) db.lockers ≡ some cell
      → is_numbered demo_location n cell ≡ true
      → exists (λ r. r.0 == n) demo_rows ≡ true
      → 1 ≤ count (is_on selected c) db.sessions + count (is_on active c) db.sessions
      → IsStranded c db (ensure_demo_data now db)
  unfolding ensure_demo_data
  ensure_demo_data-strands {cell} v e numbered listed held =
      let (row, found) = find_of_count (λ l. l.id == c) (ensure_demo_data now db).lockers kept in
      (
        same_sessions,
        (row, found, free_row c (ensure_demo_data now db).lockers emptied found),
        λ w. absurd (omega (arith, held, selections w, rentals w)),
      )
    where
      emptied :
          (st : LockerStatus)
          → locker_is free st ≡ false
          → count (is_in st c) (ensure_demo_data now db).lockers ≡ 0
      emptied st h =
          upserts_free st h now c n demo_rows (insert_demo_location now db) listed (
            rw (located now c n db)
              (others_none st h now c n db.lockers (v.cell_once c) e numbered))

      same_sessions : (ensure_demo_data now db).sessions ≡ db.sessions
      same_sessions =
          upserts_sessions now demo_rows (insert_demo_location now db) ∙ located_sessions now c n db

      kept : 1 ≤ count (λ l. l.id == c) (ensure_demo_data now db).lockers
      kept = omega (
        arith,
        count_pos (λ l. l.id == c) db.lockers e,
        upserts_keep now c demo_rows (insert_demo_location now db),
        ap (count (λ l. l.id == c)) (located now c n db),
      )

      selections : IsConsistent (ensure_demo_data now db) → count (is_on selected c) db.sessions ≡ 0
      selections w = rw (sym same_sessions) (w.reserved_held c ∙ emptied reserved refl)

      rentals : IsConsistent (ensure_demo_data now db) → count (is_on active c) db.sessions ≡ 0
      rentals w = rw (sym same_sessions) (w.occupied_held c ∙ emptied occupied refl)
