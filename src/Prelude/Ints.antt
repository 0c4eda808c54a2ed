-- ===== src/Prelude/Ints.antt =====
-- Integers over the native numbers.
use Prim.Native.Nat.{ℕ, ◌-◌}
use mathlib.Core.Bool.{Bool, true}
use test_code.Prelude.Tests.{ltb, leb, if◌then◌else◌}

pub data ℤ : Type 0 where
  pos negsuc : ℕ → ℤ

-- The difference of two `int`s.
unfoldable pub minus : ℕ → ℕ → ℤ
minus a b = if leb b a then pos (a - b) else negsuc (b - a - 1)

-- `n < 1`
unfoldable pub less_1 : ℤ → Bool
less_1 (pos n) = ltb n 1
less_1 (negsuc n) = true
