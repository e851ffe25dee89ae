-- ===== src/Older/Commands.antt =====
-- internal/repository/device_command_repository.go.
use locker.Prelude.{ℕ, ◌+◌, Bool, not, ◌&&◌, none, some, List, ◌∷◌, Text, text_eq, ◌==◌}
use locker.Table.{filter, update, exists}
use locker.Table.Pages.{order_by}
use locker.Domain.{DeviceCommandStatus, DeviceCommand}
use locker.Store.{store_failed, Op, ◌>>=◌, ◌>>◌, pure, gets, fail_if, exec, or_fail}
use locker.Auth.Accounts.{now_unix}
use locker.Older.Rows.{CommandEntity, scan_command, scan_all}

abbrev pub command_code : DeviceCommandStatus → ℕ
command_code DeviceCommandStatus.pending = 0
command_code DeviceCommandStatus.executed = 1
command_code DeviceCommandStatus.failed = 2

-- The locker and the session have to be there.
unfoldable pub insert_command : CommandEntity → Op ℕ
unfolding exists
insert_command c = do
  known ← gets (λ db.
      exists (λ l. l.id == c.locker_id) db.lockers
      && exists (λ s. s.id == c.session_id) db.sessions)
  fail_if (not known) store_failed
  id ← gets (λ db. db.next_command)
  exec (λ db. record db {
    commands =
        record {
          id = id;
          device_id = c.device_id;
          locker_id = c.locker_id;
          session_id = some c.session_id;
          type = c.type;
          status = c.status;
          retries = 0;
          error = none;
          created_at = now_unix;
          fetched_at = none;
          done_at = none;
        }
        ∷ db.commands;
    next_command = db.next_command + 1;
  })
  pure id

-- `WHERE device_id = $1 AND status = $2`
abbrev pub is_pending_for : Text → DeviceCommand → Bool
is_pending_for device c =
    text_eq c.device_id device && command_code c.status == command_code DeviceCommandStatus.pending

-- One row with a NULL makes the list fail.
unfoldable pub get_pending_by_device : Text → Op (List CommandEntity)
unfolding filter text_eq scan_command scan_all
get_pending_by_device device = do
  rows ← gets (λ db. order_by (λ c. c.created_at) (filter (is_pending_for device) db.commands))
  or_fail (scan_all scan_command rows) store_failed

unfoldable pub update_command_status : ℕ → DeviceCommandStatus → Text → Op (Unit {0})
unfolding update
update_command_status id status error = exec (λ db. record db {
  commands =
      update (λ c. c.id == id)
        (λ c. record c { status = status; error = some error; done_at = some now_unix })
        db.commands;
})

unfoldable pub update_fetched : ℕ → Op (Unit {0})
unfolding update
update_fetched id = exec (λ db. record db {
  commands = update (λ c. c.id == id) (λ c. record c { fetched_at = some now_unix }) db.commands;
})
