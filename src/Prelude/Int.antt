-- ===== src/Prelude/Int.antt =====
-- Go's signed integers: the integers, and a sum that wraps at 64 bits.
use Prim.Native.Nat.{ℕ, zero, suc, ◌+◌, ◌-◌, ◌*◌}
use mathlib.Core.Bool.{Bool, true, false}
use lessen_mcp_gateway.Prelude.Tests.{ltb, if◌then◌else◌}

-- `negsuc n` is -(n + 1).
pub data ℤ : Type 0 where
  pos : ℕ → ℤ
  negsuc : ℕ → ℤ

-- `max(v, 0)`
abbrev pub clip : ℤ → ℕ
clip (pos n) = n
clip (negsuc n) = 0

-- The minus sign.
abbrev pub neg : ℕ → ℤ
neg zero = pos 0
neg (suc n) = negsuc n

-- The first number past the `int64` values.
abbrev pub int_end : ℕ
int_end = 9223372036854775808

-- `a + n` for an `int` and a positive `int`: past the end the sum is negative.
abbrev pub add_int : ℤ → ℕ → ℤ
add_int (pos a) n = if ltb (a + n) int_end then pos (a + n) else neg (2 * int_end - (a + n))
add_int (negsuc a) n = if ltb a n then pos (n - a - 1) else negsuc (a - n)

-- `a > n`
abbrev pub above : ℤ → ℕ → Bool
above (pos a) n = ltb n a
above (negsuc a) n = false

-- `a <= 0`
abbrev pub not_positive : ℤ → Bool
not_positive (pos zero) = true
not_positive (pos (suc n)) = false
not_positive (negsuc n) = true
