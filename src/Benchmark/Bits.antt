-- ===== src/Benchmark/Bits.antt =====
-- `|` on numbers whose digits do not meet, for the division of kernel/benchmark.c.
use Prim.Native.Nat.{bit_or, max, digits, bit_or-bitwise}
use just_rt.Common.{ℕ, zero, suc, ◌+◌, ◌*◌, ◌/◌, ◌%◌, ◌^◌, ◌<◌, ◌≤◌, ◌≡◌, refl, arith, ap, ◌∙◌}
use native.Mathlib.Nat.{pow-suc}

-- The digits of `a | b`, with enough rounds for `a`.
abbrev or_digits : ℕ → ℕ → ℕ → ℕ
or_digits rounds a b = digits (λ d. d) max rounds a b

or_digits_rounds : (n m a b : ℕ) → a ≤ n → a ≤ m → or_digits n a b ≡ or_digits m a b
or_digits_rounds zero zero a b p q = refl
or_digits_rounds zero (suc m) zero b p q = refl
or_digits_rounds zero (suc m) (suc a) b p q = absurd (omega arith)
or_digits_rounds (suc n) zero zero b p q = refl
or_digits_rounds (suc n) zero (suc a) b p q = absurd (omega arith)
or_digits_rounds (suc n) (suc m) zero b p q = refl
or_digits_rounds (suc n) (suc m) (suc a) b p q =
    let halves = or_digits_rounds n m (suc a / 2) (b / 2) (omega arith) (omega arith) in
    omega (arith, halves)

zero-bit_or : (b : ℕ) → bit_or 0 b ≡ b
zero-bit_or b = bit_or-bitwise 0 b

bit_or-halves : (a b : ℕ) → bit_or a b ≡ bit_or (a / 2) (b / 2) * 2 + max (a % 2) (b % 2)
bit_or-halves zero b = ground (arith, zero-bit_or b, zero-bit_or (b / 2))
bit_or-halves (suc a) b = omega (
  arith,
  bit_or-bitwise (suc a) b,
  bit_or-bitwise (suc a / 2) (b / 2),
  or_digits_rounds a (suc a / 2) (suc a / 2) (b / 2) (omega arith) (omega arith),
)

bit_or-zero_below : (n a : ℕ) → a ≤ n → bit_or a 0 ≡ a
bit_or-zero_below zero zero h = zero-bit_or 0
bit_or-zero_below zero (suc a) h = absurd (omega arith)
bit_or-zero_below (suc n) a h =
    ground (arith, bit_or-halves a 0, bit_or-zero_below n (a / 2) (omega arith))

-- `x << 1 | b` for one digit `b`.
pub bit_or_digit : (x b : ℕ) → b < 2 → bit_or (x * 2) b ≡ x * 2 + b
bit_or_digit x b h = ground (arith, bit_or-halves (x * 2) b, bit_or-zero_below x x (omega arith))

-- A power of two set below the digits of `q`.
pub bit_or_power : (bit q : ℕ) → bit_or (q * 2 ^ (bit + 1)) (2 ^ bit) ≡ q * 2 ^ (bit + 1) + 2 ^ bit
bit_or_power zero q = bit_or_digit q 1 (omega arith)
bit_or_power (suc bit) q =
    let low : 2 ^ suc bit ≡ 2 ^ bit * 2 = pow-suc 2 bit in
    let high : q * 2 ^ (suc bit + 1) ≡ q * 2 ^ (bit + 1) * 2 =
      ap (λ n. q * 2 ^ n) (omega arith) ∙ ap (λ x. q * x) (pow-suc 2 (bit + 1)) ∙ omega arith in
    rw (low, high)
      (ground (arith, bit_or-halves (q * 2 ^ (bit + 1) * 2) (2 ^ bit * 2), bit_or_power bit q))
