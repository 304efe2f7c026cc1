-- ===== src/Mpu/Private.antt =====
-- The private region of a task in port_cm7.c: what `arch_set_task_private_data` programs.
use Prim.Native.Nat.{bit_and, bit_or}
use just_rt.Common.{
  ℕ, suc, ◌+◌, ◌-◌, ◌*◌, ◌%◌, ◌^◌, ◌<◌, ◌≤◌, ◌≡◌, ◌≢◌, ◌⊎◌, inl, inr, refl, ap, ◌∙◌, arith, some,
  false, ◌==◌, ◌&&◌, Bool-cases, update, ltb, ltb→lt, ltb→le,
}
use native.Mathlib.Nat.{pow-suc, pow-le-pow_right}
use just_rt.Kernel.{Mpu}
use just_rt.Mpu.{
  private_data_attributes, private_encoding, store_private_data, set_task_private_data,
}
use just_rt.Mpu.Region.{Encodes, grow-Encodes}
use just_rt.Mpu.Power.{power_of_two}

-- The sizes of private data that `JRT_KernelInit` accepts: none, or a power of two of 32 bytes or
-- more in a 32-bit word.
abbrev pub PrivateSize : ℕ → Type 0
PrivateSize size = (size ≡ 0) ⊎ ((32 ≤ size) × (size < 4294967296) × (bit_and size (size - 1) ≡ 0))

-- The encoding of the smallest region is that of the size itself, if that is a power of two.
Encodes-exact : (n e s : ℕ) → 5 ≤ n → 2 ^ n ≤ s → Encodes (2 ^ n) e s → e ≡ n - 1
Encodes-exact n e s h fits ok = elim (Bool-cases (ltb (e + 1) n)) [
  | inl short ↦
      let less : suc (e + 1) ≤ n = omega (arith, ltb→lt (e + 1) n short) in
      let grown = pow-le-pow_right {n = 2} (omega arith) less in
      let floor = pow-le-pow_right {n = 2} (omega arith) h in
      absurd (omega (arith, ok.power, fits, grown, floor, pow-suc 2 (e + 1)))
  | inr enough ↦ elim (Bool-cases (ltb n (e + 1))) [
    | inl long ↦
        let more : suc n ≤ e + 1 = omega (arith, ltb→lt n (e + 1) long) in
        let grown = pow-le-pow_right {n = 2} (omega arith) more in
        let floor = pow-le-pow_right {n = 2} (omega arith) h in
        absurd (omega (arith, ok.power, ok.smallest, grown, floor, pow-suc 2 n))
    | inr exact ↦ omega (arith, ltb→le (e + 1) n enough, ltb→le n (e + 1) exact)
  ]
]

private_encoding-power : (n : ℕ) → 5 ≤ n → n ≤ 31 → private_encoding (2 ^ n) ≡ some (n - 1)
unfolding private_encoding
private_encoding-power n h l =
    let top = pow-le-pow_right {n = 2} (omega arith) l in
    let (e, s, found, ok) =
      grow-Encodes 32 (2 ^ n) 32 4 (omega (arith, top)) refl (omega arith) (omega arith)
        (inl refl) in
    let exact : e ≡ n - 1 = Encodes-exact n e s h ok.holds ok in
    rw (private_encoding, found) (ap some exact)

-- What is recorded differs from the region asked for.
abbrev Differs : Mpu → ℕ → ℕ → Type 0
Differs m base size = (m.private_data_base ≢ base) ⊎ (m.private_data_size ≢ size)

-- The MPU `m'` after the region of `size` bytes at `base` is asked for: unchanged if it is the one
-- recorded; region 14 off for no bytes; else region 14 of exactly 2 ^ n bytes at `base`, which
-- both levels of privilege read and write.
pub data Programmed (m : Mpu) (base size : ℕ) (m' : Mpu) : Type 0 where
  recorded :
      m.private_data_base ≡ base → m.private_data_size ≡ size → m' ≡ m → Programmed m base size m'
  off :
      Differs m base size
      → size ≡ 0
      → m' ≡ record m {
        rbar = update m.rbar 14 0;
        rasr = update m.rasr 14 0;
        private_data_base = base;
        private_data_size = 0;
        private_data_updates = (m.private_data_updates + 1) % 4294967296;
      }
      → Programmed m base size m'
  exact :
      (n : ℕ)
      → Differs m base size
      → 5 ≤ n
      → n ≤ 31
      → size ≡ 2 ^ n
      → m' ≡ record m {
        rbar = update m.rbar 14 base;
        rasr = update m.rasr 14 (bit_or 0x130B0000 (bit_or ((n - 1) * 2) 1));
        private_data_base = base;
        private_data_size = size;
        private_data_updates = (m.private_data_updates + 1) % 4294967296;
      }
      → Programmed m base size m'

module _ (m : Mpu) (base size : ℕ) where
  differs :
      ((m.private_data_base == base) && (m.private_data_size == size)) ≡ false → Differs m base size
  differs e = elim (Bool-cases (m.private_data_base == base)) [
    | inl same ↦ inr (ground (arith, same, e))
    | inr other ↦ inl (ground (arith, other))
  ]

  program_new :
      ((m.private_data_base == base) && (m.private_data_size == size)) ≡ false
      → PrivateSize size
      → (m' : Mpu) × (set_task_private_data m base size ≡ some m') × Programmed m base size m'
  unfolding set_task_private_data store_private_data
  program_new new (inl empty) = (
    store_private_data m base size 0 0,
    rw (new, empty) refl,
    off (differs new) empty (rw empty refl),
  )
  program_new new (inr (large, word, power)) =
      let (n, low, high, p) = power_of_two size large word power in
      let some_bytes : (size == 0) ≡ false = ground (arith, large) in
      let encoded : private_encoding size ≡ some (n - 1) =
        ap private_encoding p ∙ private_encoding-power n low high in
      (
        store_private_data m base size base
            (bit_or private_data_attributes (bit_or ((n - 1) * 2) 1)),
        rw (new, some_bytes, encoded) refl,
        exact n (differs new) low high p refl,
      )

-- For a size that `JRT_KernelInit` accepts, which is 0 or a power of two from 32 to 2 ^ 31,
-- `arch_set_task_private_data` returns, its loop included. If the base and the size are the recorded
-- ones, nothing changes. Else it records them, counts an update modulo 2 ^ 32, and changes the MPU's
-- region 14 alone: for size 0 it is off; for 2 ^ n bytes it begins at the base, its size field is
-- n - 1, which stands for exactly 2 ^ n bytes, and it has the attributes of private data.
pub set_task_private_data-Programmed :
    (m : Mpu) (base size : ℕ)
    → PrivateSize size
    → (m' : Mpu) × (set_task_private_data m base size ≡ some m') × Programmed m base size m'
unfolding set_task_private_data
set_task_private_data-Programmed m base size fits =
    elim (Bool-cases ((m.private_data_base == base) && (m.private_data_size == size))) [
      | inl same ↦ (m, rw same refl, recorded (ground (arith, same)) (ground (arith, same)) refl)
      | inr new ↦ program_new m base size new fits
    ]
