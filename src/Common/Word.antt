-- ===== src/Common/Word.antt =====
-- `uint32_t` values are numbers below 2 ^ 32, and every write that can wrap says so.
use Prim.Native.Nat.{ℕ, ◌+◌, ◌-◌, ◌%◌, ◌<◌}
use mathlib.Core.Bool.{Bool}
use native.Mathlib.Omega.{arith}
use just_rt.Common.Tests.{ltb}

abbrev pub u32_max : ℕ
u32_max = 4294967295

abbrev pub u32 : ℕ → ℕ
u32 n = n % 4294967296

abbrev pub add32 : ℕ → ℕ → ℕ
add32 a b = (a + b) % 4294967296

-- `a - b` wraps below 0.
abbrev pub sub32 : ℕ → ℕ → ℕ
sub32 a b = (a + 4294967296 - b) % 4294967296

-- `(int32_t)w >= 0`
abbrev pub nonneg32 : ℕ → Bool
nonneg32 w = ltb w 2147483648

pub add32-lt : (a b : ℕ) → add32 a b < 4294967296
add32-lt a b = omega arith
