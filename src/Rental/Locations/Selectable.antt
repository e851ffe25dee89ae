-- ===== src/Rental/Locations/Selectable.antt =====
-- The list of locations against `CreateCellSelection`: the cells that it counts as free.
use mathlib.Core.Path.{subst}
use locker.Prelude.{
  ℕ, ◌≤◌, ◌≡◌, refl, Bool, true, false, not, ◌&&◌, ◌==◌, some, List, [], ◌∷◌, Text, codes,
  holds_text, All, All-mono, arith, Bool-cases, Option-cases, inl, inr,
}
use locker.Strings.{to_upper}
use locker.Table.{filter, count, exists, update}
use locker.Table.Counting.{count-update_same, count_exists, All-filter}
use locker.Table.Pages.{order_by, page, in_order-All}
use locker.Table.Sorted.{All-page}
use locker.Domain.{free, reserved, locker_is, Location, Locker}
use locker.Store.{Db, Clock, ok}
use locker.Rental.Select.{
  create_cell_selection, cleanup_expired_selections, is_candidate, is_overdue, expire,
  is_overdue_at, set_status,
}
use locker.Rental.Select.Outcomes.{answer_for, is_taken}
use locker.Rental.Select.Choice.{create_cell_selection-finds}
use locker.Rental.Locations.{
  is_searched, FreeCells, free_of_size, free_cells, scan_rows, list_lockers,
}

-- No transaction locks a cell.
abbrev pub unlocked : ℕ → Bool
unlocked id = false

abbrev pub is_free_inactive : Locker → Bool
is_free_inactive l = locker_is l.status free && not l.is_active

-- Where the list counts cells of a size, a selection of that size is granted.
abbrev pub Selectable : Clock → Text → Db → ℕ → Text → ℕ → Type 0
Selectable clock selection db location size n =
    1 ≤ n
    → (cell : Locker) × ((create_cell_selection clock unlocked selection location size db).0
        ≡ ok (answer_for clock selection location size cell))

free-candidates :
    (location : ℕ) (size : Text) (ls : List Locker)
    → count is_free_inactive ls ≡ 0
    → free_of_size location (to_upper size) ls ≤ count (is_candidate location size unlocked) ls
unfolding free_of_size is_candidate count
free-candidates location size [] h = omega arith
free-candidates location size (l ∷ ls) h = ground (arith, h, free-candidates location size ls)

-- The clean-up takes no candidate away.
swept-candidates :
    (location : ℕ) (size : Text) (now : ℕ) (q : Locker → Bool) (ls : List Locker)
    → count (is_candidate location size unlocked) ls
      ≤ count (is_candidate location size unlocked) (update q (set_status free now) ls)
unfolding is_candidate count update
swept-candidates location size now q [] = omega arith
swept-candidates location size now q (l ∷ ls) =
    ground (arith, swept-candidates location size now q ls)

-- Each location of a table is in it.
each_there : (ls : List Location) → All (λ l. exists (λ k. k.id == l.id) ls ≡ true) ls
unfolding exists
each_there [] = tt
each_there (l ∷ ls) = (
  ground arith,
  All-mono (λ x. exists (λ k. k.id == x.id) ls ≡ true)
      (λ x. exists (λ k. k.id == x.id) (l ∷ ls) ≡ true) ls (λ x h. ground (arith, h))
      (each_there ls),
)

-- What the list says of a location.
abbrev pub Promised : Clock → Text → Db → FreeCells → Type 0
Promised clock selection db row =
    Selectable clock selection db row.id (codes "s") row.s
    × Selectable clock selection db row.id (codes "m") row.m
    × Selectable clock selection db row.id (codes "l") row.l
    × Selectable clock selection db row.id (codes "xl") row.xl

module _ (clock : Clock) (selection : Text) (db : Db)
    (fresh : count (λ s. holds_text s.selection_id selection) db.sessions ≡ 0)
    (active : count is_free_inactive db.lockers ≡ 0) where
  not_taken :
      (location : ℕ) (size : Text) → is_taken clock unlocked selection location size db ≡ false
  unfolding cleanup_expired_selections
  not_taken location size = elim (Bool-cases (is_taken clock unlocked selection location size db)) [
    | inr h ↦ h
    | inl h ↦ absurd (
        omega (
          arith,
          fresh,
          count_exists (λ s. holds_text s.selection_id selection)
              (cleanup_expired_selections clock.db_now db).sessions h,
          count-update_same (λ s. holds_text s.selection_id selection) (is_overdue clock.db_now)
              (expire clock.db_now) db.sessions (λ s e. refl),
        ))
  ]

  selectable :
      (location : ℕ) (size : Text)
      → exists (λ l. l.id == location) db.locations ≡ true
      → Selectable clock selection db location size
          (free_of_size location (to_upper size) db.lockers)
  unfolding cleanup_expired_selections
  selectable location size known n =
      create_cell_selection-finds clock unlocked selection location size db known
        (not_taken location size)
        (omega (
          arith,
          n,
          free-candidates location size db.lockers active,
          swept-candidates location size clock.db_now
              (λ l.
                exists (is_overdue_at clock.db_now l.id) db.sessions && locker_is l.status reserved)
              db.lockers,
        ))

  abbrev row_of : List Locker → Location → Text → FreeCells
  row_of ls l street = record {
    id = l.id;
    street = street;
    s = free_of_size l.id (codes "S") ls;
    m = free_of_size l.id (codes "M") ls;
    l = free_of_size l.id (codes "L") ls;
    xl = free_of_size l.id (codes "XL") ls;
  }

  row-Promised :
      (l : Location) (row : FreeCells)
      → exists (λ k. k.id == l.id) db.locations ≡ true
      → free_cells db.lockers l ≡ some row
      → Promised clock selection db row
  unfolding free_cells to_upper
  row-Promised l row known e = elim (Option-cases l.address) [
    | inl a ↦ absurd (ground (arith, e, a))
    | inr (street, a) ↦
        let shape : row_of db.lockers l street ≡ row = ground (arith, e, a) in
        subst (Promised clock selection db) shape (
          selectable l.id (codes "s") known,
          selectable l.id (codes "m") known,
          selectable l.id (codes "l") known,
          selectable l.id (codes "xl") known,
        )
  ]

  rows-Promised :
      (ls : List Location) (rows : List FreeCells)
      → All (λ l. exists (λ k. k.id == l.id) db.locations ≡ true) ls
      → scan_rows db.lockers ls ≡ some rows
      → All (Promised clock selection db) rows
  unfolding scan_rows
  rows-Promised [] rows known e =
      let none_there : [] ≡ rows = ground (arith, e) in
      subst (All (Promised clock selection db)) none_there tt
  rows-Promised (l ∷ ls) rows known e = elim (Option-cases (free_cells db.lockers l)) [
    | inl a ↦ absurd (ground (arith, e, a))
    | inr (r, a) ↦ elim (Option-cases (scan_rows db.lockers ls)) [
      | inl b ↦ absurd (ground (arith, e, a, b))
      | inr (rs, b) ↦
          let shape : r ∷ rs ≡ rows = ground (arith, e, a, b) in
          subst (All (Promised clock selection db)) shape
            (row-Promised l r known.0 a, rows-Promised ls rs known.1 b)
    ]
  ]

  -- What the list of locations promises holds: where no cell is free without being in use, each row
  -- that counts a free cell of a size stands for a location where a selection of that size, with an id
  -- that no session has and while no other transaction locks a cell, is granted.
  pub list_lockers-Promised :
      (city : Text) (limit offset : ℕ) {rows : List FreeCells} {total : ℕ}
      → (list_lockers city limit offset db).0 ≡ ok (rows, total)
      → All (Promised clock selection db) rows
  unfolding list_lockers
  list_lockers-Promised city limit offset {rows} {total} e =
      let found =
        page limit offset (order_by (λ l. l.id) (filter (is_searched city) db.locations)) in
      elim (Option-cases (scan_rows db.lockers found)) [
        | inl h ↦ absurd (ground (arith, e, h))
        | inr (rs, h) ↦
            let same : rs ≡ rows = ground (arith, e, h) in
            subst (All (Promised clock selection db)) same (
              rows-Promised found rs
                (All-page _ limit offset _ (
                  in_order-All _ _ _ (All-filter _ (is_searched city) _ (each_there db.locations))))
                h)
      ]
