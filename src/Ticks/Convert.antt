-- ===== src/Ticks/Convert.antt =====
-- The conversion of milliseconds of port_cm7.c against exact arithmetic.
use just_rt.Common.{
  ℕ, ◌+◌, ◌*◌, ◌/◌, ◌%◌, ◌≤◌, ◌<◌, ◌≡◌, inl, inr, true, arith, ltb, if◌then◌else◌, u32_max,
  Bool-cases, ap, ap₂, sym, ◌∙◌, ltb→lt, ltb→le,
}
use native.Mathlib.Nat.{mul-le-mul, div-lt_iff_lt-mul}
use just_rt.Ticks.{milliseconds_to_ticks}

-- Milliseconds in ticks, rounded up, without a bound.
abbrev pub exact_ticks : ℕ → ℕ → ℕ
exact_ticks rate milliseconds = (milliseconds * rate + 999) / 1000

split-product :
    (w r a b : ℕ) → (w * 1000 + r) * (a * 1000 + b) ≡ 1000 * (w * (a * 1000 + b) + r * a) + r * b
split-product w r a b = grind arith

not_over : (w rate : ℕ) → 0 < rate → w ≤ u32_max / rate → w * rate ≤ u32_max
not_over w rate pos h = elim (Bool-cases (ltb u32_max (w * rate))) [
  | inr e ↦ ltb→le u32_max (w * rate) e
  | inl e ↦
      let above : u32_max / rate < w = (div-lt_iff_lt-mul pos).1 (ltb→lt u32_max (w * rate) e) in
      absurd (omega arith)
]

-- `JRT_MillisecondsToTicks` rounds up to the next whole tick, and where the result has more than 32
-- bits it is the largest `uint32_t`.
pub milliseconds_to_ticks_lem :
    (rate milliseconds : ℕ)
    → 0 < rate
    → rate ≤ u32_max
    → milliseconds ≤ u32_max
    → milliseconds_to_ticks rate milliseconds ≡ (
        if ltb u32_max (exact_ticks rate milliseconds)
        then u32_max
        else exact_ticks rate milliseconds)
unfolding milliseconds_to_ticks
milliseconds_to_ticks_lem rate milliseconds pos hr hm =
    let w : ℕ = milliseconds / 1000 in
    let r : ℕ = milliseconds % 1000 in
    let a : ℕ = rate / 1000 in
    let b : ℕ = rate % 1000 in
    let ms : w * 1000 + r ≡ milliseconds = omega arith in
    let hz : a * 1000 + b ≡ rate = omega arith in
    let split : milliseconds * rate ≡ 1000 * (w * rate + r * a) + r * b =
      ap₂ (λ x y. x * y) (sym ms) (sym hz)
      ∙ split-product w r a b
      ∙ ap (λ y. 1000 * (w * y + r * a) + r * b) hz in
    let hr' : r ≤ 999 = omega arith in
    let ha : a ≤ 4294967 = omega arith in
    let hb : b ≤ 999 = omega arith in
    let whole : r * a ≤ 999 * 4294967 = mul-le-mul hr' ha in
    let part : r * b ≤ 999 * 999 = mul-le-mul hr' hb in
    elim (Bool-cases (ltb (u32_max / rate) w)) [
      | inl over ↦
          let large : u32_max < w * rate =
            (div-lt_iff_lt-mul pos).0 (ltb→lt (u32_max / rate) w over) in
          let exact_over : ltb u32_max ((milliseconds * rate + 999) / 1000) ≡ true =
            ground (arith, split) in
          rw (over, exact_over)
      | inr within ↦
          let small : w * rate ≤ u32_max = not_over w rate pos (ltb→le (u32_max / rate) w within) in
          rw within (ground (arith, split))
    ]
