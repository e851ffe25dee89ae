-- ===== src/Older/Sessions.antt =====
-- internal/repository/session_repository.go.
use locker.Prelude.{ℕ, suc, ◌+◌, Bool, not, ◌&&◌, ◌||◌, none, some, [], ◌∷◌, ◌++◌, ◌==◌}
use locker.Table.{find, update, exists}
use locker.Domain.{SessionStatus, active, session_is, StorageSession}
use locker.Store.{store_failed, Op, ◌>>=◌, ◌>>◌, pure, gets, fail_if, exec, or_fail}
use locker.Auth.Accounts.{now_unix}
use locker.Older.Rows.{Driver, SessionEntity, scan_session}

-- The row that `Create` inserts.
abbrev pub row_of : ℕ → SessionEntity → ℕ → StorageSession
row_of id s now = record {
  id = id;
  locker_id = s.locker_id;
  phone = s.phone;
  access_code_hash = some s.access_code;
  access_code = none;
  selection_id = none;
  selected_size = none;
  hold_expires_at = none;
  booking_id = none;
  rental_id = none;
  locker_cell_id = none;
  cell_number = none;
  opened_at = none;
  finished_at = none;
  status = s.status;
  started_at = s.started_at;
  ends_at = some s.ends_at;
  paid_until = some s.paid_until;
  closed_at = none;
  open_attempts = 0;
  created_source = some s.created_source;
  created_at = now;
  updated_at = now;
}

-- `WHERE locker_id = $1 AND status IN ('paid', 'active')`
abbrev pub is_current : ℕ → StorageSession → Bool
is_current locker s =
    s.locker_id == locker && (session_is s.status SessionStatus.paid || session_is s.status active)

module _ {Amount : Type 0} (d : Driver Amount) where
  -- The locker has to be there.
  unfoldable pub insert_session : SessionEntity → Op ℕ
  unfolding exists
  insert_session s = do
    now ← or_fail (d.bind_time now_unix) store_failed
    known ← gets (λ db. exists (λ l. l.id == s.locker_id) db.lockers)
    fail_if (not known) store_failed
    id ← gets (λ db. db.next_session)
    exec (λ db. record db {
      sessions = db.sessions ++ row_of id s now ∷ [];
      next_session = suc db.next_session;
    })
    pure id

  -- `sql.ErrNoRows` is passed on like any other error.
  unfoldable pub session_by_id : ℕ → Op SessionEntity
  unfolding find scan_session
  session_by_id id = do
    row ← gets (λ db. find (λ s. s.id == id) db.sessions)
    s ← or_fail row store_failed
    or_fail (scan_session d s) store_failed

  unfoldable pub active_by_locker : ℕ → Op SessionEntity
  unfolding find scan_session
  active_by_locker locker = do
    row ← gets (λ db. find (is_current locker) db.sessions)
    s ← or_fail row store_failed
    or_fail (scan_session d s) store_failed

  -- `UPDATE storage_sessions SET …, updated_at = $ WHERE id = $`
  abbrev pub update_session : ℕ → (StorageSession → StorageSession) → Op (Unit {0})
  update_session id change = do
    now ← or_fail (d.bind_time now_unix) store_failed
    exec (λ db. record db {
      sessions = update (λ s. s.id == id) (λ s. record (change s) { updated_at = now }) db.sessions;
    })

  unfoldable pub update_session_status : ℕ → SessionStatus → Op (Unit {0})
  unfolding update
  update_session_status id status = update_session id (λ s. record s { status = status })

  unfoldable pub update_paid_until : ℕ → ℕ → Op (Unit {0})
  unfolding update
  update_paid_until id until = update_session id (λ s. record s { paid_until = some until })

  unfoldable pub increment_open_attempts : ℕ → Op (Unit {0})
  unfolding update
  increment_open_attempts id =
      update_session id (λ s. record s { open_attempts = s.open_attempts + 1 })
