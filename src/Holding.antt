-- ===== src/Holding.antt =====
-- Who holds a cell: the invariant between `storage_sessions` and `lockers` that the methods of
-- internal/repository/rental_flow_repository.go maintain, and the proofs that they do.
pub mod Cleanup
pub mod Select
pub mod Book
pub mod Finish
pub mod Quiet
pub mod Rows
pub mod Moves
pub mod Lapses
pub mod Reach
pub mod Lifecycle
pub mod Restart
use locker.Prelude.{ℕ, ◌≤◌, ◌≡◌, Bool, ◌&&◌, Text, ◌==◌, holds_num, holds_text}
use locker.Table.{count}
use locker.Domain.{
  LockerStatus, reserved, occupied, locker_is, SessionStatus, selected, active, session_is, Locker,
  StorageSession,
}
use locker.Store.{Db}

-- A session in a status on a cell.
abbrev pub is_on : SessionStatus → ℕ → StorageSession → Bool
is_on st c s = session_is s.status st && holds_num s.locker_cell_id c

-- A cell in a status.
abbrev pub is_in : LockerStatus → ℕ → Locker → Bool
is_in st c l = l.id == c && locker_is l.status st

-- A cell is reserved exactly as often as a selection holds it, and occupied exactly as often as an
-- active rental does; cells, selections and rentals have their ids for themselves.
pub record IsConsistent (db : Db) : Type 0 where
  pub cell_once : (c : ℕ) → count (λ l. l.id == c) db.lockers ≤ 1
  pub selection_once : (k : Text) → count (λ s. holds_text s.selection_id k) db.sessions ≤ 1
  pub rental_once : (k : Text) → count (λ s. holds_text s.rental_id k) db.sessions ≤ 1
  pub reserved_held :
      (c : ℕ) → count (is_on selected c) db.sessions ≡ count (is_in reserved c) db.lockers
  pub occupied_held :
      (c : ℕ) → count (is_on active c) db.sessions ≡ count (is_in occupied c) db.lockers
