-- ===== src/Mpu/Region.antt =====
-- The sizes of MPU regions of port_cm7.c: the loop that looks for the size encoding.
use just_rt.Common.{
  ℕ, zero, suc, ◌+◌, ◌*◌, ◌^◌, ◌≤◌, ◌<◌, ◌≡◌, ◌⊎◌, inl, inr, ap, sym, ◌∙◌, true, arith, some, ltb,
  Bool-cases, ltb→lt, ltb→le, add32, u32,
}
use native.Mathlib.Nat.{pow-suc}
use just_rt.Mpu.{grow}

-- `size` has the encoding of the register, holds `wanted` bytes, and half of it would not, but that
-- no region has less than 32 bytes.
pub record Encodes (wanted encoding size : ℕ) : Type 0 where
  pub power : size ≡ 2 ^ (encoding + 1)
  pub holds : wanted ≤ size
  pub bounded : encoding ≤ 30
  pub smallest : (size ≡ 32) ⊎ (size < 2 * wanted)

not_last :
    (wanted size encoding : ℕ)
    → wanted ≤ 2147483648
    → size ≡ 2 ^ (encoding + 1)
    → encoding ≤ 30
    → size < wanted
    → encoding < 30
not_last wanted size encoding hw hp he short = elim (Bool-cases (ltb encoding 30)) [
  | inl below ↦ ltb→lt encoding 30 below
  | inr last ↦
      let bound : 30 ≤ encoding = ltb→le encoding 30 last in
      let top : encoding ≡ 30 = omega arith in
      let full : size ≡ 2147483648 = hp ∙ ap (λ n. 2 ^ (n + 1)) top in absurd (omega arith)
]

grow-more :
    (fuel wanted size encoding : ℕ)
    → ltb size wanted ≡ true
    → encoding < 30
    → size < 2147483648
    → grow (suc fuel) wanted size encoding ≡ grow fuel wanted (size * 2) (encoding + 1)
unfolding grow
grow-more fuel wanted size encoding more below small =
    let next : add32 encoding 1 ≡ encoding + 1 = omega arith in
    let twice : u32 (size * 2) ≡ size * 2 = omega arith in rw (more, next, twice)

pub grow-Encodes :
    (fuel wanted size encoding : ℕ)
    → wanted ≤ 2147483648
    → size ≡ 2 ^ (encoding + 1)
    → encoding ≤ 30
    → 31 ≤ encoding + fuel
    → (size ≡ 32) ⊎ (size < 2 * wanted)
    → (e : ℕ) × (s : ℕ) × (grow fuel wanted size encoding ≡ some (e, s)) × Encodes wanted e s
unfolding grow
grow-Encodes zero wanted size encoding hw hp he hf hs = absurd (omega arith)
grow-Encodes (suc fuel) wanted size encoding hw hp he hf hs = elim (Bool-cases (ltb size wanted)) [
  | inr enough ↦ (
    encoding,
    size,
    rw enough,
    record { power = hp; holds = ltb→le size wanted enough; bounded = he; smallest = hs },
  )
  | inl more ↦
      let short : size < wanted = ltb→lt size wanted more in
      let below : encoding < 30 = not_last wanted size encoding hw hp he short in
      let doubled : size * 2 ≡ 2 ^ (encoding + 1 + 1) =
        ap (λ x. x * 2) hp ∙ sym (pow-suc 2 (encoding + 1)) ∙ ap (λ n. 2 ^ n) (omega arith) in
      let (e, s, found, ok) =
        grow-Encodes fuel wanted (size * 2) (encoding + 1) hw doubled (omega arith) (omega arith)
          (inr (omega arith)) in
      (e, s, grow-more fuel wanted size encoding more below (omega arith) ∙ found, ok)
]
