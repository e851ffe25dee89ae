-- ===== src/Panel/Outcomes.antt =====
-- What `UpdateLockerStatus` and `ManualOpenLocker` leave, on every branch.
use mathlib.Core.Path.{ap}
use locker.Prelude.{
  codes, ℕ, ◌+◌, ◌≤◌, ◌≡◌, refl, ◌⊎◌, true, false, ◌&&◌, none, some, ◌∷◌, Text, ◌==◌, ltb, arith,
  Option-cases, Bool-cases, inl, inr,
}
use locker.Strings.{to_lower, trim_space}
use locker.Table.{find, update, count}
use locker.Domain.{LockerStatus, free, maintenance, active, Locker}
use locker.Domain.Rules.{is_functional}
use locker.Store.{locker_not_found, payment_required, Db, RepoError, Result, ok, err, epoch}
use locker.Holding.{is_on}
use locker.Service.Errors.{app_error, ServiceError}
use locker.Panel.Filters.{can_manage, locker_status?}
use locker.Panel.Cells.{
  needs_no_rental, put_status, update_status, update_locker_status, manual_open, manual_open_locker,
  open_command, device_of, is_shut,
}

-- The guard's statuses.
guarded :
    (status : LockerStatus)
    → needs_no_rental status ≡ true
    → (status ≡ free) ⊎ (status ≡ maintenance)
guarded status h = ground (arith, h)

module _ (now locker : ℕ) (status : LockerStatus) (reason : Text) (actor : ℕ) (db : Db) where
  -- What a change of status leaves: the cells alone are written, beside the logs.
  pub record IsMoved (prev : LockerStatus × ℕ) (db' : Db) : Type 0 where
    pub cell : Locker
    pub found : find (λ l. l.id == locker) db.lockers ≡ some cell
    pub was : prev ≡ (cell.status, epoch now)
    pub no_rental :
        (status ≡ free) ⊎ (status ≡ maintenance) → count (is_on active locker) db.sessions ≡ 0
    pub moved :
        db'.lockers ≡ update (λ l. l.id == locker) (put_status status (epoch now)) db.lockers
    pub same_sessions : db'.sessions ≡ db.sessions
    pub same_payments : db'.payments ≡ db.payments

  pub data Moving : Result RepoError (LockerStatus × ℕ) × Db → Type 0 where
    absent : find (λ l. l.id == locker) db.lockers ≡ none → Moving (err locker_not_found, db)
    rented :
        (status ≡ free) ⊎ (status ≡ maintenance)
        → 1 ≤ count (is_on active locker) db.sessions
        → Moving (err payment_required, db)
    moves : {prev : LockerStatus × ℕ} {db' : Db} → IsMoved prev db' → Moving (ok prev, db')

  -- The guard, in the words of the statuses.
  unrented :
      (needs_no_rental status && ltb 0 (count (is_on active locker) db.sessions)) ≡ false
      → (status ≡ free) ⊎ (status ≡ maintenance)
      → count (is_on active locker) db.sessions ≡ 0
  unrented b (inl e) =
      let t : needs_no_rental status ≡ true = ap needs_no_rental e in ground (arith, b, t)
  unrented b (inr e) =
      let t : needs_no_rental status ≡ true = ap needs_no_rental e in ground (arith, b, t)

  pub update_status_cases : Moving (update_status now locker status reason actor db)
  unfolding update_status
  update_status_cases = elim (Option-cases (find (λ l. l.id == locker) db.lockers)) [
    | inl h ↦ rw h (absent h)
    | inr (cell, h) ↦
        elim (Bool-cases
          (needs_no_rental status && ltb 0 (count (is_on active locker) db.sessions))) [
            | inl b ↦ rw (h, b) (rented (guarded status (ground (arith, b))) (ground (arith, b)))
            | inr b ↦
                rw (h, b)
                  (moves record {
                    cell = cell;
                    found = h;
                    was = refl;
                    no_rental = unrented b;
                    moved = refl;
                    same_sessions = refl;
                    same_payments = refl;
                  })
          ]
  ]

module _ (now actor : ℕ) (role : Text) (locker : ℕ) (raw reason : Text) (db : Db) where
  -- How a request to change a cell's status ends, with what decides it.
  pub data Updates : Result ServiceError (LockerStatus × ℕ) × Db → Type 0 where
    forbidden : can_manage role ≡ false → Updates (err (app_error 403 (codes "FORBIDDEN")), db)
    unnamed :
        locker_status? (trim_space (to_lower raw)) ≡ none
        → Updates (err (app_error 422 (codes "INVALID_STATUS")), db)
    unknown :
        find (λ l. l.id == locker) db.lockers ≡ none
        → Updates (err (app_error 404 (codes "LOCKER_NOT_FOUND")), db)
    busy :
        {status : LockerStatus}
        → locker_status? (trim_space (to_lower raw)) ≡ some status
        → (status ≡ free) ⊎ (status ≡ maintenance)
        → 1 ≤ count (is_on active locker) db.sessions
        → Updates (err (app_error 409 (codes "ACTIVE_RENTAL_EXISTS")), db)
    granted :
        {prev : LockerStatus × ℕ} {db' : Db} {status : LockerStatus}
        → can_manage role ≡ true
        → locker_status? (trim_space (to_lower raw)) ≡ some status
        → IsMoved now locker status (trim_space reason) actor db prev db'
        → Updates (ok prev, db')

  update_granted :
      {status : LockerStatus} {out : Result RepoError (LockerStatus × ℕ) × Db}
      → can_manage role ≡ true
      → locker_status? (trim_space (to_lower raw)) ≡ some status
      → Moving now locker status (trim_space reason) actor db out
      → update_status now locker status (trim_space reason) actor db ≡ out
      → Updates (update_locker_status now actor role locker raw reason db)
  unfolding update_locker_status
  update_granted may named (absent h) e = rw (may, named, e) (unknown h)
  update_granted may named (rented h n) e = rw (may, named, e) (busy named h n)
  update_granted may named (moves m) e = rw (may, named, e) (granted may named m)

  -- A request to change a cell's status ends in one of five ways. It is refused, and the database is as
  -- before, if the role may not manage, if no status is named, if there is no such cell, or if the
  -- status is free or maintenance and an active rental is on the cell. Else the cell gets the status,
  -- sessions and payments stay, and for free and maintenance no active rental is on the cell.
  pub update_locker_status-Updates :
      Updates (update_locker_status now actor role locker raw reason db)
  unfolding update_locker_status
  update_locker_status-Updates = elim (Bool-cases (can_manage role)) [
    | inr b ↦ rw b (forbidden b)
    | inl b ↦ elim (Option-cases (locker_status? (trim_space (to_lower raw)))) [
      | inl h ↦ rw (b, h) (unnamed h)
      | inr (status, h) ↦
          update_granted b h (update_status_cases now locker status (trim_space reason) actor db)
            refl
    ]
  ]

module _ (now actor : ℕ) (role : Text) (locker : ℕ) (reason : Text) (db : Db) where
  -- What a manual opening leaves: one pending command, with a fresh id, for the cell's device.
  pub record IsOrdered (id : ℕ) (db' : Db) : Type 0 where
    pub cell : Locker
    pub found : find (λ l. l.id == locker) db.lockers ≡ some cell
    pub functional : is_functional cell ≡ true
    pub fresh : id ≡ db.next_command
    pub queued :
        db'.commands
        ≡ open_command id locker (device_of locker cell.hardware_id) (epoch now) ∷ db.commands
    pub next : db'.next_command ≡ db.next_command + 1
    pub same_lockers : db'.lockers ≡ db.lockers
    pub same_sessions : db'.sessions ≡ db.sessions

  pub data Orders : Result ServiceError ℕ × Db → Type 0 where
    shut_out : can_manage role ≡ false → Orders (err (app_error 403 (codes "FORBIDDEN")), db)
    missing :
        find (λ l. l.id == locker) db.lockers ≡ none
        → Orders (err (app_error 404 (codes "LOCKER_NOT_FOUND")), db)
    defunct :
        {cell : Locker}
        → find (λ l. l.id == locker) db.lockers ≡ some cell
        → is_functional cell ≡ false
        → Orders (err (app_error 409 (codes "LOCKER_NOT_FUNCTIONAL")), db)
    ordered : {id : ℕ} {db' : Db} → can_manage role ≡ true → IsOrdered id db' → Orders (ok id, db')

  is_shut_functional : (l : Locker) → is_shut l ≡ false → is_functional l ≡ true
  unfolding is_functional
  is_shut_functional l h = ground (arith, h)

  is_shut_defunct : (l : Locker) → is_shut l ≡ true → is_functional l ≡ false
  unfolding is_functional
  is_shut_defunct l h = ground (arith, h)

  -- A request for a manual opening ends in one of four ways. It is refused, and the database is as
  -- before, if the role may not manage, if there is no such cell, or if the domain calls the cell not
  -- functional. Else the cell is functional, one pending command with a fresh id is left for its
  -- device, and cells and sessions stay.
  pub manual_open_locker-Orders : Orders (manual_open_locker now actor role locker reason db)
  unfolding manual_open_locker manual_open
  manual_open_locker-Orders = elim (Bool-cases (can_manage role)) [
    | inr b ↦ rw b (shut_out b)
    | inl b ↦ elim (Option-cases (find (λ l. l.id == locker) db.lockers)) [
      | inl h ↦ rw (b, h) (missing h)
      | inr (cell, h) ↦ elim (Bool-cases (is_shut cell)) [
        | inl shut ↦ rw (b, h, shut) (defunct h (is_shut_defunct cell shut))
        | inr shut ↦
            rw (b, h, shut)
              (ordered b record {
                cell = cell;
                found = h;
                functional = is_shut_functional cell shut;
                fresh = refl;
                queued = refl;
                next = refl;
                same_lockers = refl;
                same_sessions = refl;
              })
      ]
    ]
  ]
