-- ===== src/Rental/Sweep.antt =====
-- What `CleanupExpiredSelections`, the work of internal/cron, leaves.
use locker.Prelude.{ℕ, ◌≡◌, refl, false, ◌&&◌, List, [], ◌∷◌, arith}
use locker.Table.{update, count, exists}
use locker.Table.Counting.{update_none}
use locker.Domain.{StorageSession, Locker, free, reserved, locker_is}
use locker.Store.{Db}
use locker.Rental.Select.{is_overdue, is_overdue_at, expire, set_status, cleanup_expired_selections}

none_left :
    (now : ℕ) (ss : List StorageSession)
    → count (is_overdue now) (update (is_overdue now) (expire now) ss) ≡ 0
unfolding count update
none_left now [] = refl
none_left now (s ∷ ss) = ground (arith, none_left now ss)

-- After a clean-up no selection is overdue.
pub cleanup-none_overdue :
    (now : ℕ) (db : Db) → count (is_overdue now) (cleanup_expired_selections now db).sessions ≡ 0
unfolding cleanup_expired_selections
cleanup-none_overdue now db = none_left now db.sessions

none_at :
    (now cell : ℕ) (ss : List StorageSession)
    → count (is_overdue now) ss ≡ 0
    → exists (is_overdue_at now cell) ss ≡ false
unfolding count exists
none_at now cell [] h = refl
none_at now cell (s ∷ ss) h = ground (arith, h, none_at now cell ss)

cells_stay :
    (now : ℕ) (ss : List StorageSession) (ls : List Locker)
    → count (is_overdue now) ss ≡ 0
    → update
        (λ l. exists (is_overdue_at now l.id) ss && locker_is l.status reserved)
        (set_status free now)
        ls
      ≡ ls
unfolding update
cells_stay now ss [] h = refl
cells_stay now ss (l ∷ ls) h = ground (arith, none_at now l.id ss h, cells_stay now ss ls h)

-- A second clean-up at the same time changes nothing.
pub cleanup_idem :
    (now : ℕ) (db : Db)
    → cleanup_expired_selections now (cleanup_expired_selections now db)
      ≡ cleanup_expired_selections now db
unfolding cleanup_expired_selections
cleanup_idem now db = rw (
  update_none (is_overdue now) (expire now) (update (is_overdue now) (expire now) db.sessions)
      (none_left now db.sessions),
  cells_stay now (update (is_overdue now) (expire now) db.sessions)
      (update (λ l. exists (is_overdue_at now l.id) db.sessions && locker_is l.status reserved)
        (set_status free now) db.lockers)
      (none_left now db.sessions),
)
