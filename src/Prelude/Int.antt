-- ===== src/Prelude/Int.antt =====
-- Go's signed integers, as values; `negsuc n` is -(n + 1).
use Prim.Native.Nat.{ℕ}
use mathlib.Core.Option.{Option, none, some}

pub data ℤ : Type 0 where
  pos : ℕ → ℤ
  negsuc : ℕ → ℤ

-- The value as a natural number, where it is not negative.
abbrev pub to_ℕ? : ℤ → Option ℕ
to_ℕ? (pos n) = some n
to_ℕ? (negsuc n) = none
