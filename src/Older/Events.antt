-- ===== src/Older/Events.antt =====
-- internal/repository/event_repository.go.
use locker.Prelude.{ℕ, ◌+◌, not, ◌&&◌, some, List, ◌∷◌, Text, ◌==◌}
use locker.Table.{filter, exists}
use locker.Table.Pages.{order_down, page}
use locker.Store.{store_failed, Op, ◌>>=◌, ◌>>◌, gets, fail_if, exec, or_fail}
use locker.Auth.Accounts.{now_unix}
use locker.Older.Rows.{Driver, EventEntity, scan_event, scan_all}

-- `domain.Event` as the services fill it, and `domain.AuditLog`.
pub record NewEvent : Type 0 where
  pub locker_id : ℕ
  pub session_id : ℕ
  pub event_type : Text
  pub payload : Text

pub record NewAudit : Type 0 where
  pub actor_type : Text
  pub actor_id : ℕ
  pub action : Text
  pub object_type : Text
  pub object_id : ℕ
  pub payload : Text

module _ {Amount : Type 0} (d : Driver Amount) where
  -- The locker and the session have to be there.
  unfoldable pub log_locker_event : NewEvent → Op (Unit {0})
  unfolding exists
  log_locker_event e = do
    payload ← or_fail (d.bind_json e.payload) store_failed
    known ← gets (λ db.
        exists (λ l. l.id == e.locker_id) db.lockers
        && exists (λ s. s.id == e.session_id) db.sessions)
    fail_if (not known) store_failed
    exec (λ db. record db {
      events =
          record {
            id = db.next_event;
            locker_id = e.locker_id;
            session_id = some e.session_id;
            event_type = e.event_type;
            payload = payload;
            created_at = now_unix;
          }
          ∷ db.events;
      next_event = db.next_event + 1;
    })

  unfoldable pub log_audit : NewAudit → Op (Unit {0})
  log_audit a = do
    payload ← or_fail (d.bind_json a.payload) store_failed
    exec (λ db. record db {
      audits =
          record {
            actor_type = a.actor_type;
            actor_id = a.actor_id;
            action = a.action;
            object_type = a.object_type;
            object_id = a.object_id;
            payload = payload;
            created_at = now_unix;
          }
          ∷ db.audits;
    })

-- One row whose `session_id` is NULL makes the list fail.
unfoldable pub get_locker_events : ℕ → ℕ → Op (List EventEntity)
unfolding filter scan_event scan_all
get_locker_events locker limit = do
  rows ← gets (λ db.
      page limit 0 (order_down (λ e. e.created_at) (filter (λ e. e.locker_id == locker) db.events)))
  or_fail (scan_all scan_event rows) store_failed
