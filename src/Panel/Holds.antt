-- ===== src/Panel/Holds.antt =====
-- What a change of a cell's status does to those who hold the cell: admin_panel_repository.go beside
-- rental_flow_repository.go.
use locker.Prelude.{
  ℕ, ◌+◌, ◌≤◌, ◌≡◌, refl, ap, ◌∙◌, ◌⊎◌, inl, inr, true, false, none, some, Text, ◌==◌, bit, arith,
  Bool-cases,
}
use locker.Table.{find, count}
use locker.Table.Counting.{count-update, count-update_same, count_of_row, find-true, find_of_count}
use locker.Table.Unique.{find_unique, find-update}
use locker.Domain.{LockerStatus, reserved, occupied, locker_is, selected, active, Locker}
use locker.Store.{Db, RepoError, Result, ok, epoch}
use locker.Holding.{is_on, is_in, IsConsistent}
use locker.Panel.Cells.{put_status, update_status}
use locker.Panel.Outcomes.{Moving, absent, rented, moves, IsMoved, update_status_cases}

module _ (now locker : ℕ) (status : LockerStatus) (reason : Text) (actor : ℕ) (db : Db)
    (v : IsConsistent db) where
  -- How the change counts, among the cells in a status.
  module _ (prev : LockerStatus × ℕ) (db' : Db)
      (m : IsMoved now locker status reason actor db prev db') where
    cells_counted :
        (st : LockerStatus) (c : ℕ)
        → count (is_in st c) db'.lockers + bit (is_in st c m.cell)
          ≡ count (is_in st c) db.lockers + bit (is_in st c (put_status status (epoch now) m.cell))
    cells_counted st c = rw m.moved (
        count-update (is_in st c) (λ l. l.id == locker) (put_status status (epoch now)) db.lockers
          (v.cell_once locker) m.found)

    the_cell : (m.cell.id == locker) ≡ true
    the_cell = find-true (λ l. l.id == locker) db.lockers m.found

    -- Neither the cell as it was nor as it is counts, where no cell was in the status and the new status is another.
    unmoved :
        (st : LockerStatus) (c : ℕ)
        → count (is_in st locker) db.lockers ≡ 0
        → locker_is status st ≡ false
        → count (is_in st c) db'.lockers ≡ count (is_in st c) db.lockers
    unmoved st c nobody other = elim (Bool-cases (is_in st c m.cell)) [
      | inl was ↦
          let row =
            count_of_row (is_in st locker) (λ l. l.id == locker) db.lockers m.found
              (ground (arith, was, the_cell)) in
          absurd (omega (arith, row, nobody))
      | inr was ↦ ground (arith, was, other, cells_counted st c)
    ]

    cells_once : (c : ℕ) → count (λ l. l.id == c) db'.lockers ≤ 1
    cells_once c =
        rw
          (
            m.moved,
            count-update_same (λ l. l.id == c) (λ l. l.id == locker) (put_status status (epoch now))
                db.lockers (λ l h. refl),
          )
          (v.cell_once c)

    moved-IsConsistent :
        count (is_on selected locker) db.sessions ≡ 0
        → count (is_on active locker) db.sessions ≡ 0
        → locker_is status reserved ≡ false
        → locker_is status occupied ≡ false
        → IsConsistent db'
    moved-IsConsistent s a r o = record {
      cell_once = cells_once;
      selection_once = λ k. rw m.same_sessions (v.selection_once k);
      rental_once = λ k. rw m.same_sessions (v.rental_once k);
      reserved_held = λ c. rw m.same_sessions (
          omega (
            arith,
            unmoved reserved c (omega (arith, s, v.reserved_held locker)) r,
            v.reserved_held c,
          ));
      occupied_held = λ c. rw m.same_sessions (
          omega (
            arith,
            unmoved occupied c (omega (arith, a, v.occupied_held locker)) o,
            v.occupied_held c,
          ));
    }

    -- The cell that one selection holds is reserved, so it no longer is.
    freed_under :
        count (is_on selected locker) db.sessions ≡ 1
        → locker_is status reserved ≡ false
        → IsConsistent db'
        → ⊥
    freed_under s r w =
        let (l, e) =
          find_of_count (is_in reserved locker) db.lockers
            (omega (arith, s, v.reserved_held locker)) in
        let same : find (λ l. l.id == locker) db.lockers ≡ some l =
          find_unique (λ l. l.id == locker) (λ l. locker_is l.status reserved) db.lockers
            (v.cell_once locker) e in
        let held : is_in reserved locker m.cell ≡ true =
          ground (arith, same, m.found, find-true (is_in reserved locker) db.lockers e) in
        ground (
          arith,
          held,
          r,
          s,
          cells_counted reserved locker,
          v.reserved_held locker,
          w.reserved_held locker,
          m.same_sessions,
        )

  kept :
      {out : Result RepoError (LockerStatus × ℕ) × Db}
      → Moving now locker status reason actor db out
      → count (is_on selected locker) db.sessions ≡ 0
      → count (is_on active locker) db.sessions ≡ 0
      → locker_is status reserved ≡ false
      → locker_is status occupied ≡ false
      → IsConsistent out.1
  kept (absent h) s a r o = v
  kept (rented h n) s a r o = v
  kept (moves {prev} {db'} m) s a r o = moved-IsConsistent prev db' m s a r o

  -- Where no selection and no active rental is on the cell, a change of its status keeps a consistent
  -- database consistent, unless the new status is `reserved` or `occupied`.
  pub update_status-IsConsistent :
      count (is_on selected locker) db.sessions ≡ 0
      → count (is_on active locker) db.sessions ≡ 0
      → locker_is status reserved ≡ false
      → locker_is status occupied ≡ false
      → IsConsistent (update_status now locker status reason actor db).1
  update_status-IsConsistent s a r o =
      kept (update_status_cases now locker status reason actor db) s a r o

  -- The cell that a selection holds, under the id alone.
  held_row :
      (st : LockerStatus)
      → 1 ≤ count (is_in st locker) db.lockers
      → (l : Locker) × (find (λ l. l.id == locker) db.lockers ≡ some l) × (is_in st locker l ≡ true)
  held_row st h =
      let (l, e) = find_of_count (is_in st locker) db.lockers h in
      (
        l,
        find_unique (λ l. l.id == locker) (λ l. locker_is l.status st) db.lockers
            (v.cell_once locker) e,
        find-true (is_in st locker) db.lockers e,
      )

  -- So the change is not refused.
  no_refusal :
      count (is_on selected locker) db.sessions ≡ 1
      → (find (λ l. l.id == locker) db.lockers ≡ none)
        ⊎ (1 ≤ count (is_on active locker) db.sessions)
      → ⊥
  no_refusal s (inl missing) =
      let (l, e, is) = held_row reserved (omega (arith, s, v.reserved_held locker)) in
      ground (arith, missing, e)
  no_refusal s (inr occupying) =
      let (l, e, is) = held_row reserved (omega (arith, s, v.reserved_held locker)) in
      let (l', e', is') = held_row occupied (omega (arith, occupying, v.occupied_held locker)) in
      let same : l ≡ l' = ground (arith, e, e') in
      let twice : is_in occupied locker l ≡ true = rw same is' in ground (arith, is, twice)

  -- What such a change leaves: the hold stays, and the cell is in the new status.
  abbrev pub IsStranded : Result RepoError (LockerStatus × ℕ) × Db → Type 0
  IsStranded out =
      ((prev : LockerStatus × ℕ) × (out.0 ≡ ok prev))
      × (out.1.sessions ≡ db.sessions)
      × ((cell : Locker) × (find (λ l. l.id == locker) out.1.lockers ≡ some cell)
          × (cell.status ≡ status))
      × ¬ IsConsistent out.1

  stranded :
      {out : Result RepoError (LockerStatus × ℕ) × Db}
      → Moving now locker status reason actor db out
      → count (is_on selected locker) db.sessions ≡ 1
      → locker_is status reserved ≡ false
      → IsStranded out
  stranded (absent h) s r = absurd (no_refusal s (inl h))
  stranded (rented h n) s r = absurd (no_refusal s (inr n))
  stranded (moves {prev} {db'} m) s r = (
    (prev, refl),
    m.same_sessions,
    (
      put_status status (epoch now) m.cell,
      ap (find (λ l. l.id == locker)) m.moved
          ∙ find-update (λ l. l.id == locker) (put_status status (epoch now)) db.lockers (λ l h. h)
              m.found,
      refl,
    ),
    freed_under prev db' m s r,
  )

  -- In a consistent database a cell that one selection holds can be given any status but `reserved`: the
  -- change succeeds, the sessions and with them the hold are as before, the cell has the new status, and
  -- the database is not consistent.
  pub update_status-frees_held :
      count (is_on selected locker) db.sessions ≡ 1
      → locker_is status reserved ≡ false
      → IsStranded (update_status now locker status reason actor db)
  update_status-frees_held s r =
      stranded (update_status_cases now locker status reason actor db) s r
