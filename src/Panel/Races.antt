-- ===== src/Panel/Races.antt =====
-- `UpdateLockerStatus` of admin_panel_repository.go against a booking: it runs in no transaction, so that
-- a booking can come between its statements.
use locker.Prelude.{
  ℕ, ◌≤◌, ◌≡◌, refl, true, ◌&&◌, some, ◌∷◌, [], Text, codes, ◌==◌, ltb, arith, Bool-cases, inl, inr,
}
use locker.Table.{find, update, count}
use locker.Table.Counting.{count-update, find_of_count, find-true}
use locker.Table.Unique.{find_unique}
use locker.Domain.{LockerStatus, reserved, occupied, locker_is, selected, active, Locker}
use locker.Store.{
  Db, Clock, Result, RepoError, ok, err, locker_not_found, payment_required, Op, ◌>>=◌, ◌>>◌, pure,
  fail_if, gets, exec, or_fail, epoch,
}
use locker.Holding.{is_on, is_in, IsConsistent}
use locker.Holding.Book.{book-IsConsistent}
use locker.Rental.Book.{BookingIds, create_booking}
use locker.Service.Numbers.Decimal.{decimal}
use locker.Panel.Filters.{status_word}
use locker.Panel.Cells.{add_event, add_audit, put_status, needs_no_rental, update_status}

-- The statements of the method, with what others do to the database between the first and the second,
-- and between the second and the third.
unfoldable pub update_status_amid :
    (Db → Db) → (Db → Db) → ℕ → ℕ → LockerStatus → Text → ℕ → Op (LockerStatus × ℕ)
unfolding find update count
update_status_amid before_count before_update now locker status reason actor = do
  row ← gets (λ db. find (λ l. l.id == locker) db.lockers)
  cell ← or_fail row locker_not_found
  exec before_count
  rentals ← gets (λ db. count (is_on active locker) db.sessions)
  fail_if (needs_no_rental status && ltb 0 rentals) payment_required
  exec before_update
  exec (λ db. record db {
    lockers = update (λ l. l.id == locker) (put_status status (epoch now)) db.lockers;
  })
  exec (
      add_event locker (codes "admin_status_changed")
        (status_word cell.status ∷ status_word status ∷ reason ∷ decimal actor ∷ []) (epoch now))
  exec (
      add_audit actor (codes "admin_locker_status_update") locker
        (status_word cell.status ∷ status_word status ∷ reason ∷ []) (epoch now))
  pure (cell.status, epoch now)

-- Where nobody comes between, it is the method as one step.
pub update_status_amid_alone :
    (now locker : ℕ) (status : LockerStatus) (reason : Text) (actor : ℕ)
    → update_status_amid (λ db. db) (λ db. db) now locker status reason actor
      ≡ update_status now locker status reason actor
unfolding update_status_amid update_status
update_status_amid_alone now locker status reason actor = refl

module _ (now locker : ℕ) (status : LockerStatus) (calm : needs_no_rental status ≡ true) where
  -- A cell that an active rental is on is occupied, so it is no longer.
  freed_under_rental :
      (db after : Db)
      → IsConsistent db
      → count (is_on active locker) db.sessions ≡ 1
      → after.lockers ≡ update (λ l. l.id == locker) (put_status status (epoch now)) db.lockers
      → after.sessions ≡ db.sessions
      → ¬ IsConsistent after
  freed_under_rental db after v rented e same w =
      let (l, h) =
        find_of_count (is_in occupied locker) db.lockers
          (omega (arith, rented, v.occupied_held locker)) in
      let cell =
        find_unique (λ l. l.id == locker) (λ l. locker_is l.status occupied) db.lockers
          (v.cell_once locker) h in
      let moved =
        count-update (is_in occupied locker) (λ l. l.id == locker) (put_status status (epoch now))
          db.lockers (v.cell_once locker) cell in
      let held : count (is_on active locker) after.sessions
          ≡ count (is_in occupied locker) after.lockers =
        w.occupied_held locker in
      ground (
        arith,
        calm,
        find-true (is_in occupied locker) db.lockers h,
        moved,
        e,
        same,
        rented,
        held,
        v.occupied_held locker,
      )

  -- The row of a cell that is in a status.
  row_in :
      (st : LockerStatus) (db : Db)
      → IsConsistent db
      → 1 ≤ count (is_in st locker) db.lockers
      → (l : Locker) × (find (λ l. l.id == locker) db.lockers ≡ some l) × (is_in st locker l ≡ true)
  row_in st db v h =
      let (l, e) = find_of_count (is_in st locker) db.lockers h in
      (
        l,
        find_unique (λ l. l.id == locker) (λ l. locker_is l.status st) db.lockers
            (v.cell_once locker) e,
        find-true (is_in st locker) db.lockers e,
      )

  module _ (reason : Text) (actor : ℕ) (clock : Clock) (ids : BookingIds) (location : ℕ)
      (selection phone : Text) (db : Db) (v : IsConsistent db)
      (held : count (is_on selected locker) db.sessions ≡ 1) where
    abbrev booking : Db → Db
    booking db = (create_booking clock ids location selection phone db).1

    abbrev raced : Result RepoError (LockerStatus × ℕ) × Db
    raced = update_status_amid (λ db. db) booking now locker status reason actor db

    not_rented : count (is_on active locker) db.sessions ≡ 0
    not_rented = elim (Bool-cases (ltb 0 (count (is_on active locker) db.sessions))) [
      | inl busy ↦
          let (l, e, is) = row_in reserved db v (omega (arith, held, v.reserved_held locker)) in
          let (k, e', is') = row_in occupied db v (ground (arith, busy, v.occupied_held locker)) in
          let same : l ≡ k = ground (arith, e, e') in
          let twice : is_in occupied locker l ≡ true = rw same is' in
          absurd (ground (arith, is, twice))
      | inr calm ↦ ground (arith, calm)
    ]

    -- In a consistent database a cell is held by a selection, and the selection is booked between the
    -- count of active rentals and the update of a change to `free` or `maintenance`: the change
    -- succeeds, the active rental is on the cell, and the database is not consistent; the same change
    -- behind the booking is refused and leaves the database as it is.
    pub update_status-races :
        count (is_on active locker) (booking db).sessions ≡ 1
        → ((prev : LockerStatus) × (raced.0 ≡ ok (prev, epoch now)))
          × (count (is_on active locker) raced.1.sessions ≡ 1)
          × ¬ IsConsistent raced.1
          × (update_status now locker status reason actor (booking db)
              ≡ (err payment_required, booking db))
    unfolding update_status_amid update_status
    update_status-races booked =
        let (l, e, is) = row_in reserved db v (omega (arith, held, v.reserved_held locker)) in
        let v' : IsConsistent (booking db) =
          book-IsConsistent clock ids location selection phone db v in
        let (k, e', is') =
          row_in occupied (booking db) v' (omega (arith, booked, v'.occupied_held locker)) in
        (
          (l.status, rw (e, not_rented, calm)),
          rw (e, not_rented, calm) booked,
          λ w.
              freed_under_rental (booking db) _ v' booked (rw (e, not_rented, calm))
                (rw (e, not_rented, calm)) w,
          rw (e', booked, calm),
        )
