-- ===== src/Benchmark/Divide.antt =====
-- The bitwise division of kernel/benchmark.c.
use Prim.Native.Nat.{bit_or}
use just_rt.Common.{
  ℕ, zero, suc, ◌+◌, ◌-◌, ◌*◌, ◌/◌, ◌%◌, ◌^◌, ◌<◌, ◌≤◌, ◌≡◌, ◌≢◌, inl, inr, refl, sym, ap, ◌∙◌,
  arith, leb, if◌then◌else◌, Bool-cases, leb→le, u32_max,
}
use native.Mathlib.Nat.{pow-suc, div-div-eq-div-mul, mul-add-div_right, div-eq_of_lt, mul-le-mul}
use just_rt.Benchmark.{divide_loop, divide_u64_u32, period_to_cycles}
use just_rt.Benchmark.Bits.{bit_or_digit, bit_or_power}

-- The next digit of the numerator joins the remainder.
next_digit :
    (numerator bit : ℕ)
    → numerator / 2 ^ bit ≡ numerator / 2 ^ (bit + 1) * 2 + numerator / 2 ^ bit % 2
next_digit numerator bit =
    let half : numerator / 2 ^ bit / 2 ≡ numerator / 2 ^ (bit + 1) =
      div-div-eq-div-mul numerator (2 ^ bit) 2
      ∙ ap (λ x. numerator / x) (sym (pow-suc 2 bit))
      ∙ ap (λ n. numerator / 2 ^ n) (omega arith) in
    omega (arith, half)

-- What the loop keeps: `high` is the quotient of the digits seen, shifted to its place.
divide_loop_lem :
    (numerator denominator bit remainder high : ℕ)
    → denominator < 4294967296
    → remainder < denominator
    → numerator / 2 ^ bit ≡ high * denominator + remainder
    → (r : ℕ) × (r < denominator)
      × (numerator
          ≡ divide_loop numerator denominator bit remainder (high * 2 ^ bit) * denominator + r)
unfolding divide_loop
divide_loop_lem numerator denominator zero remainder high hd hr h =
    (remainder, hr, omega (arith, h))
divide_loop_lem numerator denominator (suc bit) remainder high hd hr h =
    let digit : ℕ = numerator / 2 ^ bit % 2 in
    let shifted : bit_or (remainder * 2 % 2 ^ 64) digit ≡ remainder * 2 + digit =
      ap (λ x. bit_or x digit) (omega (arith, hr, hd))
      ∙ bit_or_digit remainder digit (omega arith) in
    let above : numerator / 2 ^ bit ≡ high * 2 * denominator + (remainder * 2 + digit) =
      next_digit numerator bit
      ∙ ap (λ n. numerator / 2 ^ n * 2 + digit) (omega arith)
      ∙ ap (λ x. x * 2 + digit) h
      ∙ omega arith in
    let place : high * 2 ^ suc bit ≡ high * 2 * 2 ^ bit =
      ap (λ x. high * x) (pow-suc 2 bit) ∙ omega arith in
    let set : bit_or (high * 2 ^ suc bit) (2 ^ bit) ≡ (high * 2 + 1) * 2 ^ bit =
      ap (λ n. bit_or (high * 2 ^ n) (2 ^ bit)) (omega arith)
      ∙ bit_or_power bit high
      ∙ ap (λ n. high * 2 ^ n + 2 ^ bit) (omega arith)
      ∙ ap (λ x. x + 2 ^ bit) place
      ∙ omega arith in
    elim (Bool-cases (leb denominator (remainder * 2 + digit))) [
      | inl fits ↦
          rw (shifted, fits, set)
            (divide_loop_lem numerator denominator bit (remainder * 2 + digit - denominator)
              (high * 2 + 1) hd (omega (arith, hr, leb→le denominator _ fits))
              (above ∙ omega (arith, leb→le denominator _ fits)))
      | inr less ↦
          rw (shifted, less, place)
            (divide_loop_lem numerator denominator bit (remainder * 2 + digit) (high * 2) hd
              (ground (arith, less)) above)
    ]

-- For a denominator that is not 0, `divide_u64_u32` is the exact quotient.
pub divide_u64_u32_lem :
    (numerator denominator : ℕ)
    → numerator < 18446744073709551616
    → denominator ≢ 0
    → denominator < 4294967296
    → divide_u64_u32 numerator denominator ≡ numerator / denominator
unfolding divide_u64_u32
divide_u64_u32_lem numerator denominator hn hz hd =
    let (r, hr, e) =
      divide_loop_lem numerator denominator 64 0 0 hd (omega arith) (omega (arith, hn)) in
    sym (
      ap (λ n. n / denominator) e
      ∙ mul-add-div_right (omega (arith, hz)) (divide_loop numerator denominator 64 0 0) r
      ∙ ap (λ n. divide_loop numerator denominator 64 0 0 + n) (div-eq_of_lt hr)
      ∙ omega arith)

bound : (n : ℕ) → n < 4294967296 → n ≤ 4294967295
bound n h = omega arith

-- For 32-bit periods and rates, the tick rate not being 0, `period_to_cycles` yields the exact
-- number of cycles of the period, rounded down, and 0 where a `uint32_t` cannot hold it.
pub period_to_cycles_lem :
    (clock_hz tick_rate_hz period_ticks : ℕ)
    → clock_hz < 4294967296
    → tick_rate_hz ≢ 0
    → tick_rate_hz < 4294967296
    → period_ticks < 4294967296
    → let cycles = period_ticks * clock_hz / tick_rate_hz in
      period_to_cycles clock_hz tick_rate_hz period_ticks
      ≡ (if leb cycles u32_max then cycles else 0)
unfolding period_to_cycles
period_to_cycles_lem clock_hz tick_rate_hz period_ticks hc hz hr hp =
    let product : period_ticks * clock_hz < 18446744073709551616 =
      let larger = mul-le-mul (bound period_ticks hp) (bound clock_hz hc) in
      omega (arith, larger) in
    let whole : period_ticks * clock_hz % 2 ^ 64 ≡ period_ticks * clock_hz =
      omega (arith, product) in
    rw (whole, divide_u64_u32_lem (period_ticks * clock_hz) tick_rate_hz product hz hr) refl
