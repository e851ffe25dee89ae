-- ===== src/Panel/Cells.antt =====
-- What an administrator does to a cell: `UpdateLockerStatus` and `ManualOpenLocker` of
-- admin_panel_repository.go and of admin_service.go. The JSON of an event is the values in it.
use locker.Prelude.{
  ℕ, ◌+◌, Bool, not, ◌||◌, ◌&&◌, ◌++◌, Option, none, some, List, [], ◌∷◌, Text, codes, ◌==◌, ltb,
  if◌then◌else◌,
}
use locker.Strings.{to_lower, trim_space}
use locker.Table.{find, update, count}
use locker.Domain.{
  LockerStatus, free, maintenance, out_of_service, locker_is, Locker, open_lock, DeviceCommand,
  DeviceCommandStatus,
}
use locker.Store.{
  Db, Result, ok, err, RepoError, locker_not_found, no_cells_available, payment_required, Op, ◌>>=◌,
  ◌>>◌, pure, fail_if, gets, exec, or_fail, epoch,
}
use locker.Holding.{is_on}
use locker.Domain.{active}
use locker.Service.Errors.{ServiceError, app_error, other}
use locker.Service.Flow.{Call, refuse}
use locker.Service.Numbers.Decimal.{decimal}
use locker.Panel.Filters.{can_manage, status_word, locker_status?}

-- The row that the event of an action leaves; its error is dropped, and there is none here.
abbrev pub add_event : ℕ → Text → List Text → ℕ → Db → Db
add_event locker type payload now db = record db {
  events =
      record {
        id = db.next_event;
        locker_id = locker;
        session_id = none;
        event_type = type;
        payload = payload;
        created_at = now;
      }
      ∷ db.events;
  next_event = db.next_event + 1;
}

abbrev pub add_audit : ℕ → Text → ℕ → List Text → ℕ → Db → Db
add_audit actor action locker payload now db = record db {
  audits =
      record {
        actor_type = codes "admin";
        actor_id = actor;
        action = action;
        object_type = codes "locker";
        object_id = locker;
        payload = payload;
        created_at = now;
      }
      ∷ db.audits;
}

abbrev pub put_status : LockerStatus → ℕ → Locker → Locker
put_status status now l = record l { status = status; updated_at = now }

-- `newStatus == "free" || newStatus == "maintenance"`
abbrev pub needs_no_rental : LockerStatus → Bool
needs_no_rental status = locker_is status free || locker_is status maintenance

-- The previous status and the time.
unfoldable pub update_status : ℕ → ℕ → LockerStatus → Text → ℕ → Op (LockerStatus × ℕ)
unfolding find update count
update_status now locker status reason actor = do
  row ← gets (λ db. find (λ l. l.id == locker) db.lockers)
  cell ← or_fail row locker_not_found
  rentals ← gets (λ db. count (is_on active locker) db.sessions)
  fail_if (needs_no_rental status && ltb 0 rentals) payment_required
  exec (λ db. record db {
    lockers = update (λ l. l.id == locker) (put_status status (epoch now)) db.lockers;
  })
  exec (
      add_event locker (codes "admin_status_changed")
        (status_word cell.status ∷ status_word status ∷ reason ∷ decimal actor ∷ []) (epoch now))
  exec (
      add_audit actor (codes "admin_locker_status_update") locker
        (status_word cell.status ∷ status_word status ∷ reason ∷ []) (epoch now))
  pure (cell.status, epoch now)

-- `hardwareID.String`, or a name made from the cell's id.
abbrev pub device_of : ℕ → Option Text → Text
device_of locker none = codes "locker-" ++ decimal locker
device_of locker (some []) = codes "locker-" ++ decimal locker
device_of locker (some (c ∷ s)) = c ∷ s

abbrev pub open_command : ℕ → ℕ → Text → ℕ → DeviceCommand
open_command id locker device now = record {
  id = id;
  device_id = device;
  locker_id = locker;
  session_id = none;
  type = open_lock;
  status = DeviceCommandStatus.pending;
  retries = 0;
  error = none;
  created_at = now;
  fetched_at = none;
  done_at = none;
}

abbrev pub add_command : ℕ → Text → ℕ → Db → Db
add_command locker device now db = record db {
  commands = open_command db.next_command locker device now ∷ db.commands;
  next_command = db.next_command + 1;
}

-- `!isActive || status == "maintenance" || status == "out_of_service"`
abbrev pub is_shut : Locker → Bool
is_shut l = not l.is_active || locker_is l.status maintenance || locker_is l.status out_of_service

-- The id of the command that is left for the device.
unfoldable pub manual_open : ℕ → ℕ → Text → ℕ → Op ℕ
unfolding find
manual_open now locker reason actor = do
  row ← gets (λ db. find (λ l. l.id == locker) db.lockers)
  cell ← or_fail row locker_not_found
  fail_if (is_shut cell) no_cells_available
  id ← gets (λ db. db.next_command)
  exec (add_command locker (device_of locker cell.hardware_id) (epoch now))
  exec (
      add_event locker (codes "admin_manual_open") (reason ∷ decimal id ∷ decimal actor ∷ [])
        (epoch now))
  exec (add_audit actor (codes "admin_manual_open") locker (reason ∷ decimal id ∷ []) (epoch now))
  pure id

-- The errors that each method of the service names; any other is passed on.
abbrev pub status_error : RepoError → ServiceError
status_error locker_not_found = app_error 404 (codes "LOCKER_NOT_FOUND")
status_error payment_required = app_error 409 (codes "ACTIVE_RENTAL_EXISTS")
status_error e = other e

abbrev pub open_error : RepoError → ServiceError
open_error locker_not_found = app_error 404 (codes "LOCKER_NOT_FOUND")
open_error no_cells_available = app_error 409 (codes "LOCKER_NOT_FUNCTIONAL")
open_error e = other e

abbrev pub answer_by :
    {A : Type 0} → (RepoError → ServiceError) → Result RepoError A × Db → Result ServiceError A × Db
answer_by f (ok a, db) = (ok a, db)
answer_by f (err e, db) = (err (f e), db)

abbrev pub mapped_by : {A : Type 0} → (RepoError → ServiceError) → Op A → Call A
mapped_by f op db = answer_by f (op db)

unfoldable pub update_locker_status : ℕ → ℕ → Text → ℕ → Text → Text → Call (LockerStatus × ℕ)
update_locker_status now actor role locker raw reason =
    if can_manage role
    then elim (locker_status? (trim_space (to_lower raw))) [
      | none ↦ refuse (app_error 422 (codes "INVALID_STATUS"))
      | some status ↦
          mapped_by status_error (update_status now locker status (trim_space reason) actor)
    ]
    else refuse (app_error 403 (codes "FORBIDDEN"))

unfoldable pub manual_open_locker : ℕ → ℕ → Text → ℕ → Text → Call ℕ
manual_open_locker now actor role locker reason =
    if can_manage role
    then mapped_by open_error (manual_open now locker (trim_space reason) actor)
    else refuse (app_error 403 (codes "FORBIDDEN"))
