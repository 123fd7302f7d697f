-- ===== src/Shared/Integers.antt =====
-- Integers over the native numbers, and the range of an `i32`.
use Prim.Native.Nat.{ℕ, ◌≤◌}
use mathlib.Core.Bool.{Bool}
use setfork_core.Shared.Tests.{leb}

-- `negsuc n` is -(n + 1).
pub data ℤ : Type 0 where
  pos negsuc : ℕ → ℤ

-- How far a number is from 0, or from -1 below it: at most 2^31 - 1 in an `i32`.
abbrev pub reach : ℤ → ℕ
reach (pos n) = n
reach (negsuc n) = n

abbrev pub FitsI32 : ℤ → Type 0
FitsI32 z = reach z ≤ 2147483647

abbrev pub fits_i32 : ℤ → Bool
fits_i32 z = leb (reach z) 2147483647
