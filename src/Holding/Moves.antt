-- ===== src/Holding/Moves.antt =====
-- The machine of a cell's status that the rental flow follows.
use locker.Prelude.{ℕ, ◌≡◌, some, ◌==◌}
use locker.Table.{find}
use locker.Domain.{LockerStatus, free, reserved, occupied, Locker}
use locker.Store.{Db}

-- What one call may do to a cell: hold it when it is free, turn the hold into a rental or let it lapse,
-- end the rental. Every other status stays.
pub data CellMoves (a b : LockerStatus) : Type 0 where
  stays : a ≡ b → CellMoves a b
  held : a ≡ free → b ≡ reserved → CellMoves a b
  booked : a ≡ reserved → b ≡ occupied → CellMoves a b
  lapsed : a ≡ reserved → b ≡ free → CellMoves a b
  ended : a ≡ occupied → b ≡ free → CellMoves a b

-- Any number of such moves.
pub data CellRuns (a : LockerStatus) : LockerStatus → Type 0 where
  unmoved : CellRuns a a
  moved : {b c : LockerStatus} → CellRuns a b → CellMoves b c → CellRuns a c

-- The cell is still there, and its status has moved.
abbrev pub CellMoved : ℕ → Locker → Db → Type 0
CellMoved c l after =
    (l' : Locker) × (find (λ k. k.id == c) after.lockers ≡ some l') × CellMoves l.status l'.status
