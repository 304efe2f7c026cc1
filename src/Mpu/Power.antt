-- ===== src/Mpu/Power.antt =====
-- The test for a power of two that `validate_private_region` of task.c makes, `size & (size - 1)`,
-- in arithmetic.
use Prim.Native.Nat.{min, digits, bit_and, bit_and-bitwise}
use just_rt.Common.{
  ℕ, zero, suc, ◌+◌, ◌-◌, ◌*◌, ◌/◌, ◌%◌, ◌^◌, ◌<◌, ◌≤◌, ◌≡◌, refl, sym, ap, ◌∙◌, arith, ◌==◌,
  Bool-cases, ==→eq, ==→ne, inl, inr, ltb, ltb→le, ltb→lt,
}
use native.Mathlib.Nat.{pow-suc, pow-le-pow_right}

-- More rounds than a number has digits add nothing.
digits_enough :
    (n m a b : ℕ) → a ≤ n → a ≤ m → digits (λ _. zero) min n a b ≡ digits (λ _. zero) min m a b
digits_enough zero zero a b p q = refl
digits_enough zero (suc m) zero b p q = refl
digits_enough zero (suc m) (suc a) b p q = absurd (omega arith)
digits_enough (suc n) zero zero b p q = refl
digits_enough (suc n) zero (suc a) b p q = absurd (omega arith)
digits_enough (suc n) (suc m) zero b p q = refl
digits_enough (suc n) (suc m) (suc a) b p q =
    omega (arith, digits_enough n m (suc a / 2) (b / 2) (omega arith) (omega arith))

-- One binary digit of a conjunction.
bit_and_halves : (a b : ℕ) → bit_and a b ≡ bit_and (a / 2) (b / 2) * 2 + min (a % 2) (b % 2)
bit_and_halves zero b = omega (arith, bit_and-bitwise 0 b, bit_and-bitwise 0 (b / 2))
bit_and_halves (suc a) b = omega (
  arith,
  bit_and-bitwise (suc a) b,
  bit_and-bitwise (suc a / 2) (b / 2),
  digits_enough a (suc a / 2) (suc a / 2) (b / 2) (omega arith) (omega arith),
)

bit_and_self : (fuel n : ℕ) → n ≤ fuel → bit_and n n ≡ n
bit_and_self zero zero h = bit_and-bitwise 0 0
bit_and_self zero (suc n) h = absurd (omega arith)
bit_and_self (suc fuel) zero h = bit_and-bitwise 0 0
bit_and_self (suc fuel) (suc n) h =
    omega (arith, bit_and_halves (suc n) (suc n), bit_and_self fuel (suc n / 2) (omega arith))

power_from : (fuel n : ℕ) → n ≤ fuel → 0 < n → bit_and n (n - 1) ≡ 0 → (m : ℕ) × (n ≡ 2 ^ m)
power_from zero n h positive e = absurd (omega arith)
power_from (suc fuel) n h positive e = elim (Bool-cases (n % 2 == 0)) [
  | inl even ↦
      let e' : n % 2 ≡ 0 = ==→eq (n % 2) 0 even in
      let half : (n - 1) / 2 ≡ n / 2 - 1 = omega arith in
      let step =
        bit_and_halves n (n - 1)
        ∙ ap (λ x. bit_and (n / 2) x * 2 + min (n % 2) ((n - 1) % 2)) half in
      let (m, p) = power_from fuel (n / 2) (omega arith) (omega arith) (omega (arith, step)) in
      let twice : n ≡ n / 2 * 2 = omega (arith, e') in
      (suc m, twice ∙ ap (λ x. x * 2) p ∙ sym (pow-suc 2 m))
  | inr odd ↦
      let o : n % 2 ≡ 1 = omega (arith, ==→ne (n % 2) 0 odd) in
      let half : (n - 1) / 2 ≡ n / 2 = omega arith in
      let step =
        bit_and_halves n (n - 1)
        ∙ ap (λ x. bit_and (n / 2) x * 2 + min (n % 2) ((n - 1) % 2)) half in
      (0, omega (arith, step, bit_and_self n (n / 2) (omega arith)))
]

-- A word of 32 or more that passes the test is a power of two from 2 ^ 5 to 2 ^ 31.
pub power_of_two :
    (n : ℕ)
    → 32 ≤ n
    → n < 4294967296
    → bit_and n (n - 1) ≡ 0
    → (m : ℕ) × (5 ≤ m) × (m ≤ 31) × (n ≡ 2 ^ m)
power_of_two n large word e =
    let (m, p) = power_from n n (omega arith) (omega arith) e in
    (m, not_less m p large, not_more m p word, p)
  where
    not_less : (m : ℕ) → n ≡ 2 ^ m → 32 ≤ n → 5 ≤ m
    not_less m p l = elim (Bool-cases (ltb m 5)) [
      | inl small ↦
          let top : m ≤ 4 = ground (arith, small) in
          absurd (omega (arith, p, l, pow-le-pow_right {n = 2} (omega arith) top))
      | inr fine ↦ ltb→le m 5 fine
    ]

    not_more : (m : ℕ) → n ≡ 2 ^ m → n < 4294967296 → m ≤ 31
    not_more m p l = elim (Bool-cases (ltb m 32)) [
      | inl fine ↦ omega (arith, ltb→lt m 32 fine)
      | inr large_m ↦
          let bottom : 32 ≤ m = ltb→le m 32 large_m in
          absurd (omega (arith, p, l, pow-le-pow_right {n = 2} (omega arith) bottom))
    ]
