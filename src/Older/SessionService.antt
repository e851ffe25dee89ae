-- ===== src/Older/SessionService.antt =====
-- internal/service/session_service.go.
use locker.Prelude.{ℕ, Bool, not, ◌||◌, [], ◌++◌, Text, codes, text_eq, if◌then◌else◌}
use locker.Domain.{created, waiting_payment, session_is, SessionStatus}
use locker.Domain.Rules.{can_open_for_session, time_now}
use locker.Older.{Act, ◌>>=◌, ◌>>◌, pure, fail_if, calls, tries}
use locker.Older.Rows.{Driver, SessionEntity}
use locker.Older.Lockers.{get_by_id}
use locker.Older.Sessions.{
  insert_session, session_by_id, update_session_status, update_paid_until, increment_open_attempts,
}
use locker.Older.Events.{log_locker_event}
use locker.Prelude.{true, false, ltb, ◌&&◌}

-- `nowUnix` of this package, and `CanUseAccessCode` of an entity.
abbrev pub now_unix : ℕ
now_unix = 0

abbrev pub entity_can_use_code : SessionEntity → Bool
entity_can_use_code s = session_is s.status SessionStatus.paid && ltb time_now s.paid_until

abbrev pub new_session : ℕ → Text → Text → SessionEntity
new_session locker phone source = record {
  id = 0;
  locker_id = locker;
  phone = phone;
  access_code = [];
  status = created;
  started_at = now_unix;
  ends_at = 0;
  paid_until = 0;
  closed_at = 0;
  open_attempts = 0;
  created_source = source;
  created_at = 0;
  updated_at = 0;
}

abbrev pub phone_json : Text → Text
phone_json phone = codes "{\"phone\":\"" ++ phone ++ codes "\"}"

-- `session.Status != waiting_payment && session.Status != created`
abbrev pub awaits_payment : SessionEntity → Bool
awaits_payment s = session_is s.status waiting_payment || session_is s.status created

-- `generateCode`, which draws nothing.
abbrev pub generate_code : Text
generate_code = codes "000000"

-- `hash` is sha256 in hexadecimal digits.
module _ {Amount : Type 0} (d : Driver Amount) (hash : Text → Text) where
  unfoldable pub create_session : ℕ → Text → Text → Act SessionEntity
  create_session locker phone source = do
    cell ← calls (get_by_id locker)
    fail_if (not (can_open_for_session cell)) (codes "locker not available")
    id ← calls (insert_session d (new_session locker phone source))
    tries (
        log_locker_event d (record {
          locker_id = locker;
          session_id = id;
          event_type = codes "session_created";
          payload = phone_json phone;
        }))
    pure (record (new_session locker phone source) { id = id })

  unfoldable pub mark_paid : ℕ → ℕ → Act (Unit {0})
  mark_paid id until = do
    session ← calls (session_by_id d id)
    fail_if (not (awaits_payment session)) (codes "invalid session status for payment")
    calls (update_session_status d id SessionStatus.paid)
    calls (update_paid_until d id until)
    tries (
        log_locker_event d (record {
          locker_id = session.locker_id;
          session_id = id;
          event_type = codes "session_paid";
          payload = [];
        }))

  -- The attempt is counted where it can be.
  abbrev pub compared : ℕ → Text → SessionEntity → Act Bool
  compared id code session =
      if text_eq (hash code) session.access_code
      then pure true
      else (do tries (increment_open_attempts d id); pure false)

  unfoldable pub verify_access_code : ℕ → Text → Act Bool
  verify_access_code id code = do
    session ← calls (session_by_id d id)
    fail_if (not (entity_can_use_code session)) (codes "code expired or session not paid")
    compared id code session

  -- The hash goes into the entity alone.
  unfoldable pub gen_session_code : ℕ → Act Text
  gen_session_code id = do session ← calls (session_by_id d id); pure generate_code
