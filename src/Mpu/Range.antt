-- ===== src/Mpu/Range.antt =====
-- The regions that `configure_region_range` of port_cm7.c computes.
use Prim.Native.Nat.{bit_or}
use just_rt.Common.{
  ℕ, zero, suc, ◌+◌, ◌-◌, ◌*◌, ◌/◌, ◌%◌, ◌^◌, ◌≤◌, ◌<◌, ◌≡◌, inl, inr, refl, ap, sym, ◌∙◌, arith,
  some, ltb, leb, Bool-cases, ltb→lt, ltb→le, add32, sub32, u32, update, lt→leb,
}
use native.Mathlib.Nat.{pow-suc, pow-le-pow_right, div-add-mod', mul-mod_left}
use just_rt.Kernel.{Mpu}
use just_rt.Mpu.{align_down, widen, region_of, configure_region_range}
use just_rt.Mpu.Region.{grow-Encodes}

-- A region of `2 ^ (encoding + 1)` bytes at a multiple of its size that contains the addresses from
-- `start` to `end`.
pub record Contains (start end base size encoding : ℕ) : Type 0 where
  pub power : size ≡ 2 ^ (encoding + 1)
  pub bounded : encoding ≤ 30
  pub aligned : base % size ≡ 0
  pub from_start : base ≤ start
  pub to_end : end ≤ base + size

size_bounded : (size encoding : ℕ) → size ≡ 2 ^ (encoding + 1) → encoding ≤ 30 → size ≤ 2147483648
size_bounded size encoding hp he =
    let top : encoding + 1 ≤ 31 = omega arith in
    omega (arith, hp, pow-le-pow_right {n = 2} (omega arith) top)

size_positive : (size encoding : ℕ) → size ≡ 2 ^ (encoding + 1) → 0 < size
size_positive size encoding hp =
    let bottom : 0 ≤ encoding + 1 = omega arith in
    omega (arith, hp, pow-le-pow_right {n = 2} (omega arith) bottom)

align_down-aligned : (start size : ℕ) → align_down start size % size ≡ 0
align_down-aligned start size =
    let whole : align_down start size ≡ start / size * size =
      omega (arith, div-add-mod' start size) in
    ap (λ n. n % size) whole ∙ mul-mod_left (start / size) size

-- The end of an aligned region of a power of two of bytes does not wrap, if it begins below 2 ^ 31.
region_end :
    (start size : ℕ)
    → start < 2147483648
    → size ≤ 2147483648
    → add32 (align_down start size) size ≡ align_down start size + size
region_end start size hs hz = elim (Bool-cases (ltb size 2147483648)) [
  | inl small ↦
      let below : size < 2147483648 = ltb→lt size 2147483648 small in
      let down : start - start % size ≤ start = omega arith in omega (arith, below, down, hs)
  | inr whole ↦
      let top : size ≡ 2147483648 = omega (arith, ltb→le size 2147483648 whole, hz) in
      let base : align_down start size ≡ 0 = rw top (omega (arith, hs)) in
      rw base (omega (arith, hz))
]

not_top :
    (size encoding : ℕ)
    → size ≡ 2 ^ (encoding + 1)
    → encoding ≤ 30
    → size < 2147483648
    → encoding < 30
not_top size encoding hp he short = elim (Bool-cases (ltb encoding 30)) [
  | inl below ↦ ltb→lt encoding 30 below
  | inr last ↦
      let bound : 30 ≤ encoding = ltb→le encoding 30 last in
      let top : encoding ≡ 30 = omega arith in
      let full : size ≡ 2147483648 = hp ∙ ap (λ n. 2 ^ (n + 1)) top in absurd (omega arith)
]

widen-Contains :
    (fuel start end size encoding : ℕ)
    → start < end
    → end ≤ 2147483648
    → size ≡ 2 ^ (encoding + 1)
    → encoding ≤ 30
    → 31 ≤ encoding + fuel
    → (b : ℕ) × (s : ℕ) × (e : ℕ) × (widen fuel start end size encoding ≡ some (b, s, e))
      × Contains start end b s e
unfolding widen
widen-Contains zero start end size encoding l h hp he hf = absurd (omega arith)
widen-Contains (suc fuel) start end size encoding l h hp he hf =
    let small : size ≤ 2147483648 = size_bounded size encoding hp he in
    let wrapless = region_end start size (omega arith) small in
    elim (Bool-cases (ltb (add32 (align_down start size) size) end)) [
      | inr enough ↦ (
        align_down start size,
        size,
        encoding,
        rw enough,
        record {
          power = hp;
          bounded = he;
          aligned = align_down-aligned start size;
          from_start = omega arith;
          to_end = omega (arith, wrapless, ltb→le (add32 (align_down start size) size) end enough);
        },
      )
      | inl more ↦
          let short : align_down start size + size < end =
            omega (arith, wrapless, ltb→lt (add32 (align_down start size) size) end more) in
          let below : encoding < 30 = not_top size encoding hp he (omega (arith, short, h)) in
          let doubled : size * 2 ≡ 2 ^ (encoding + 1 + 1) =
            ap (λ x. x * 2) hp ∙ sym (pow-suc 2 (encoding + 1)) ∙ ap (λ n. 2 ^ n) (omega arith) in
          let next : add32 encoding 1 ≡ encoding + 1 = omega arith in
          let twice : u32 (size * 2) ≡ size * 2 = omega (arith, short, h) in
          rw (more, next, twice)
            (widen-Contains fuel start end (size * 2) (encoding + 1) l h doubled (omega arith)
              (omega arith))
    ]

region_of-Contains :
    (start end : ℕ)
    → start < end
    → end ≤ 2147483648
    → (b : ℕ) × (s : ℕ) × (e : ℕ) × (region_of start end ≡ some (b, s, e))
      × Contains start end b s e
unfolding region_of
region_of-Contains start end l h =
    let length : sub32 end start ≡ end - start = omega arith in
    let (e, s, found, ok) =
      grow-Encodes 32 (end - start) 32 4 (omega arith) refl (omega arith) (omega arith)
        (inl refl) in
    rw (region_of, length, found)
      (widen-Contains 32 start end s e l h ok.power ok.bounded (omega (arith, ok.bounded)))

-- What `configure_region_range` leaves in the region's two registers.
pub record Configured (m m' : Mpu) (region start end attributes : ℕ) : Type 0 where
  pub base : ℕ
  pub size : ℕ
  pub encoding : ℕ
  pub contains : Contains start end base size encoding
  pub registers : m' ≡ record m {
    rbar = update m.rbar region base;
    rasr = update m.rasr region (bit_or attributes (bit_or (encoding * 2) 1));
  }

-- For every range of addresses that is not empty and ends by 2 ^ 31, both loops of
-- `configure_region_range` end, and the region that it enables has a power of two of bytes, the
-- one that its size field encodes, begins at a multiple of its size, and contains the range.
pub configure_region_range-Configured :
    (m : Mpu) (region start end attributes : ℕ)
    → start < end
    → end ≤ 2147483648
    → (m' : Mpu) × (configure_region_range m region start end attributes ≡ some m')
      × Configured m m' region start end attributes
unfolding configure_region_range
configure_region_range-Configured m region start end attributes l h =
    let (b, s, e, found, ok) = region_of-Contains start end l h in
    (
      _,
      rw (lt→leb start end l, found),
      record { base = b; size = s; encoding = e; contains = ok; registers = refl },
    )

-- Where the range ends by 2 ^ 31, `configure_region_range` returns.
pub configure_region_range_ends :
    (m : Mpu) (region start end attributes : ℕ)
    → end ≤ 2147483648
    → (m' : Mpu) × (configure_region_range m region start end attributes ≡ some m')
unfolding configure_region_range
configure_region_range_ends m region start end attributes h = elim (Bool-cases (leb end start)) [
  | inl empty ↦ (record m { rasr = update m.rasr region 0 }, rw empty refl)
  | inr l ↦
      let range : start < end = ground (arith, l) in
      let (m', e, c) = configure_region_range-Configured m region start end attributes range h in
      (m', e)
]
