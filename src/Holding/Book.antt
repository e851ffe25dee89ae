-- ===== src/Holding/Book.antt =====
-- `CreateBooking` against the invariant: the selection's reserved cell becomes the rental's.
use locker.Prelude.{
  ℕ, ◌+◌, bit, ◌≤◌, ◌≡◌, inl, inr, Bool, true, false, some, Text, ◌==◌, text_eq, eq_of_text_eq,
  arith, Bool-cases,
}
use locker.Table.{find, update, count}
use locker.Table.Counting.{count-update, find-true, find_of_count, count_of_row}
use locker.Table.Unique.{find_unique, update-update, count_after}
use locker.Domain.{
  reserved, occupied, locker_is, session_is, selected, active, Locker, StorageSession,
}
use locker.Store.{Db, Clock, RepoError, Result}
use locker.Rental.Select.{set_status}
use locker.Rental.Book.{
  Booking, BookingIds, has_selection, has_rental, is_in_location, book_session, is_lapsed,
  create_booking,
}
use locker.Rental.Book.Outcomes.{booked, wanted, ids_taken, no_other_rental}
use locker.Rental.Book.Cases.{Books, refused, granted, create_booking_cases}
use locker.Holding.{is_on, is_in, IsConsistent}

module _ (clock : Clock) (ids : BookingIds) (location : ℕ) (selection : Text) (phone : Text)
    (db : Db) (v : IsConsistent db) (s : StorageSession) (cell number hold : ℕ)
    (found : find (wanted clock ids location selection phone db) db.sessions ≡ some s)
    (at_cell : s.locker_cell_id ≡ some cell) (live : is_lapsed clock s hold ≡ false)
    (fresh : ids_taken clock ids location selection phone db ≡ false) where
  -- Both updates of the session as one.
  activate : StorageSession → StorageSession
  unfolding book_session
  activate x = record (book_session clock ids phone cell number x) {
    status = active;
    updated_at = clock.db_now;
  }

  abbrev after : Db
  after =
      booked clock ids location selection phone db cell number
        (book_session clock ids phone cell number s)

  after_sessions : after.sessions ≡ update (has_selection selection) activate db.sessions
  unfolding activate
  after_sessions =
      update-update (has_selection selection) (book_session clock ids phone cell number)
        (λ x. record x { status = active; updated_at = clock.db_now }) db.sessions (λ x e. e)

  row : find (has_selection selection) db.sessions ≡ some s
  row =
      find_unique (has_selection selection) (is_in_location location db.lockers) db.sessions
        (v.selection_once selection) found

  -- A count over the sessions moves by the one row.
  sessions_moved :
      (p : StorageSession → Bool)
      → count p after.sessions + bit (p s) ≡ count p db.sessions + bit (p (activate s))
  sessions_moved p = rw after_sessions (
      count-update p (has_selection selection) activate db.sessions (v.selection_once selection)
        row)

  is_selected : session_is s.status selected ≡ true
  is_selected = ground arith

  -- The selection's cell is reserved.
  cell_row :
      (l : Locker) × (find (λ l. l.id == cell) db.lockers ≡ some l)
      × (locker_is l.status reserved ≡ true)
  cell_row =
      let held : 1 ≤ count (is_on selected cell) db.sessions =
        count_of_row (is_on selected cell) (has_selection selection) db.sessions row
          (ground (arith, is_selected)) in
      let (l, e) =
        find_of_count (is_in reserved cell) db.lockers
          (omega (arith, held, v.reserved_held cell)) in
      (
        l,
        find_unique (λ l. l.id == cell) (λ l. locker_is l.status reserved) db.lockers
            (v.cell_once cell) e,
        ground (arith, find-true (is_in reserved cell) db.lockers e),
      )

  cells_moved :
      (p : Locker → Bool)
      → count p after.lockers + bit (p cell_row.0)
        ≡ count p db.lockers + bit (p (set_status occupied clock.db_now cell_row.0))
  cells_moved p =
      count-update p (λ l. l.id == cell) (set_status occupied clock.db_now) db.lockers
        (v.cell_once cell) cell_row.1

  rental_once : (k : Text) → count (has_rental k) after.sessions ≤ 1
  unfolding activate book_session
  rental_once k = elim (Bool-cases (text_eq ids.rental k)) [
    | inl e ↦
        rw (after_sessions, ← eq_of_text_eq ids.rental k e)
          (count_after (has_rental ids.rental) (has_selection selection) activate db.sessions
            (λ x h. h) (v.selection_once selection)
            (no_other_rental clock ids location selection phone db fresh))
    | inr e ↦ ground (arith, e, sessions_moved (has_rental k), v.rental_once k)
  ]

  module _ (c : ℕ) where
    cell_facts : ((cell_row.0.id == cell) ≡ true) × (locker_is cell_row.0.status reserved ≡ true)
    cell_facts = (find-true (λ l. l.id == cell) db.lockers cell_row.1, cell_row.2)

    reserved_held : count (is_on selected c) after.sessions ≡ count (is_in reserved c) after.lockers
    unfolding activate book_session
    reserved_held = ground (
      arith,
      is_selected,
      cell_facts,
      sessions_moved (is_on selected c),
      cells_moved (is_in reserved c),
      v.reserved_held c,
    )

    occupied_held : count (is_on active c) after.sessions ≡ count (is_in occupied c) after.lockers
    unfolding activate book_session
    occupied_held = ground (
      arith,
      is_selected,
      cell_facts,
      sessions_moved (is_on active c),
      cells_moved (is_in occupied c),
      v.occupied_held c,
    )

  booked-IsConsistent : IsConsistent after
  unfolding activate book_session
  booked-IsConsistent = record {
    cell_once = λ c. omega (arith, cells_moved (λ l. l.id == c), v.cell_once c);
    selection_once = λ k. omega (arith, sessions_moved (has_selection k), v.selection_once k);
    rental_once = rental_once;
    reserved_held = reserved_held;
    occupied_held = occupied_held;
  }

-- A booking keeps the invariant, whatever its outcome.
pub book-IsConsistent :
    (clock : Clock) (ids : BookingIds) (location : ℕ) (selection : Text) (phone : Text) (db : Db)
    → IsConsistent db
    → IsConsistent (create_booking clock ids location selection phone db).1
book-IsConsistent clock ids location selection phone db v =
    kept (create_booking_cases clock ids location selection phone db (v.selection_once selection))
  where
    kept :
        {r : Result RepoError Booking × Db}
        → Books clock ids location selection phone db r
        → IsConsistent r.1
    kept refused = v
    kept (granted {s} {cell} {number} {hold} found at_cell numbered held live fresh) =
        booked-IsConsistent clock ids location selection phone db v s cell number hold found at_cell
          live fresh
