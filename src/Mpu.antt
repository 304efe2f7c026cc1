-- ===== src/Mpu.antt =====
-- The MPU regions of arch/cortex_m/port_cm7.c, as built with JRT_ARCH_HAS_MPU. Region numbers,
-- attribute bits and the size encoding are those of the source.
pub mod Region
pub mod Power
pub mod Private
pub mod Range
use Prim.Native.Nat.{bit_or}
use just_rt.Common.{
  ℕ, zero, suc, ◌+◌, ◌-◌, ◌*◌, ◌%◌, ◌^◌, ◌&&◌, Option, none, some, ltb, leb, ◌==◌, if◌then◌else◌,
  List, [], ◌∷◌, u32, add32, sub32, update,
}
use just_rt.Kernel.{Mpu}

abbrev pub task_private_data_region : ℕ
task_private_data_region = 14

abbrev pub stack_guard_region : ℕ
stack_guard_region = 15

-- `MPU_RASR_AP_READ_WRITE_BOTH | MPU_RASR_XN | MPU_RASR_TEX_NORMAL | MPU_RASR_CACHEABLE |
-- MPU_RASR_BUFFERABLE`
abbrev pub private_data_attributes : ℕ
private_data_attributes =
    bit_or (3 * 2 ^ 24) (bit_or (2 ^ 28) (bit_or (2 ^ 19) (bit_or (2 ^ 17) (2 ^ 16))))

-- `MPU_RASR_XN | MPU_RASR_SIZE_32_BYTES | MPU_RASR_ENABLE`
abbrev pub stack_guard_attributes : ℕ
stack_guard_attributes = bit_or (2 ^ 28) (bit_or (4 * 2) 1)

-- `while (represented_size < size) { represented_size <<= 1U; size_encoding++; }`, with the rounds
-- allowed: the encoding and the size, `none` if the rounds do not suffice.
unfoldable pub grow : ℕ → ℕ → ℕ → ℕ → Option (ℕ × ℕ)
grow zero wanted size encoding = none
grow (suc fuel) wanted size encoding =
    let more = grow fuel wanted (u32 (size * 2)) (add32 encoding 1) in
    if ltb size wanted then more else some (encoding, size)

-- What the loop of `arch_set_task_private_data` yields, from 32 bytes and the encoding 4 on; `none`
-- where it does not end, which after 32 rounds is certain, the size then staying 0.
unfoldable pub private_encoding : ℕ → Option ℕ
private_encoding size = elim (grow 32 size 32 4) [
  | none ↦ none
  | some (encoding, represented) ↦ some encoding
]

-- The stores of `arch_set_task_private_data`: the region's two registers, and the record of it.
unfoldable pub store_private_data : Mpu → ℕ → ℕ → ℕ → ℕ → Mpu
store_private_data m base size rbar rasr = record m {
  rbar = update m.rbar task_private_data_region rbar;
  rasr = update m.rasr task_private_data_region rasr;
  private_data_base = base;
  private_data_size = size;
  private_data_updates = add32 m.private_data_updates 1;
}

-- `arch_set_task_private_data`; `none` where its loop does not end.
unfoldable pub set_task_private_data : Mpu → ℕ → ℕ → Option Mpu
set_task_private_data m base size =
    let enabled : Option Mpu = elim (private_encoding size) [
      | none ↦ none
      | some encoding ↦ some (
          store_private_data m base size base
            (bit_or private_data_attributes (bit_or (encoding * 2) 1)))
    ] in
    if (m.private_data_base == base) && (m.private_data_size == size)
    then some m
    else (if size == 0 then some (store_private_data m base size 0 0) else enabled)

-- `arch_set_task_stack_guard`
unfoldable pub set_task_stack_guard : Mpu → ℕ → Mpu
set_task_stack_guard m base = if m.stack_guard_base == base then m else record m {
  rbar = update m.rbar stack_guard_region base;
  rasr = update m.rasr stack_guard_region stack_guard_attributes;
  stack_guard_base = base;
  stack_guard_updates = add32 m.stack_guard_updates 1;
}

-- `start & ~(size - 1U)` for a power of two `size`.
abbrev pub align_down : ℕ → ℕ → ℕ
align_down start size = start - start % size

-- The second loop of `configure_region_range`, with the rounds allowed: the base, the size and the
-- encoding.
unfoldable pub widen : ℕ → ℕ → ℕ → ℕ → ℕ → Option (ℕ × ℕ × ℕ)
widen zero start end size encoding = none
widen (suc fuel) start end size encoding =
    let more = widen fuel start end (u32 (size * 2)) (add32 encoding 1) in
    if ltb (add32 (align_down start size) size) end
    then more
    else some (align_down start size, size, encoding)

-- The two loops of `configure_region_range`
unfoldable pub region_of : ℕ → ℕ → Option (ℕ × ℕ × ℕ)
region_of start end = elim (grow 32 (sub32 end start) 32 4) [
  | none ↦ none
  | some (encoding, size) ↦ widen 32 start end size encoding
]

-- `configure_region_range`; `none` where its loops do not end.
unfoldable pub configure_region_range : Mpu → ℕ → ℕ → ℕ → ℕ → Option Mpu
configure_region_range m region start end attributes =
    let configured : Option Mpu = elim (region_of start end) [
      | none ↦ none
      | some (base, size, encoding) ↦ some (record m {
        rbar = update m.rbar region base;
        rasr = update m.rasr region (bit_or attributes (bit_or (encoding * 2) 1));
      })
    ] in
    if leb end start then some (record m { rasr = update m.rasr region 0 }) else configured

-- A region of `configure_memory_regions`: its number, its range, and its attributes.
pub record Area : Type 0 where
  pub region : ℕ
  pub first : ℕ
  pub limit : ℕ
  pub attributes : ℕ

-- The calls of `configure_region_range`, in their order.
unfoldable pub configure_areas : List Area → Mpu → Option Mpu
configure_areas [] m = some m
configure_areas (a ∷ rest) m =
    elim (configure_region_range m a.region a.first a.limit a.attributes) [
      | none ↦ none
      | some m' ↦ configure_areas rest m'
    ]

-- `for (index = 0U; index < MPU_REGION_COUNT; index++) { MPU_RNR = index; MPU_RASR = 0U; }`
unfoldable pub clear_regions : (ℕ → ℕ) → ℕ → ℕ → ℕ → ℕ
clear_regions rasr zero index = rasr
clear_regions rasr (suc rounds) index = clear_regions (update rasr index 0) rounds (index + 1)

-- `MPU_REGION_COUNT`
abbrev pub region_count : ℕ
region_count = 16

-- `arch_configure_mpu` up to the two dynamic regions: the MPU is off, all regions are cleared and
-- the fixed ones set.
unfoldable pub configure_fixed : List Area → Mpu → Option Mpu
configure_fixed areas m = configure_areas areas (record m {
  ctrl = 0;
  shcsr = bit_or m.shcsr (2 ^ 16);
  rasr = clear_regions m.rasr region_count 0;
})

-- The end of `arch_configure_mpu`: the two dynamic regions of the first task, and the MPU is on.
unfoldable pub enable_mpu : Mpu → ℕ → ℕ → ℕ → Option Mpu
enable_mpu fixed guard base size =
    let reset = record fixed {
      stack_guard_base = 0;
      stack_guard_updates = 0;
      private_data_base = 0;
      private_data_size = 0;
      private_data_updates = 0;
    } in
    elim (set_task_private_data reset base size) [
      | none ↦ none
      | some m ↦ some (record (set_task_stack_guard m guard) { ctrl = bit_or 1 (2 ^ 2) })
    ]

-- `arch_configure_mpu`
unfoldable pub configure_mpu : List Area → Mpu → ℕ → ℕ → ℕ → Option Mpu
configure_mpu areas m guard base size = elim (configure_fixed areas m) [
  | none ↦ none
  | some fixed ↦ enable_mpu fixed guard base size
]

-- `MPU_RASR_AP_PRIV_RO_UNPRIV_NONE | MPU_RASR_CACHEABLE`
abbrev pub privileged_flash_attributes : ℕ
privileged_flash_attributes = bit_or (5 * 2 ^ 24) (2 ^ 17)

-- `MPU_RASR_AP_PRIV_RW_UNPRIV_NONE | MPU_RASR_XN | MPU_RASR_TEX_NORMAL | MPU_RASR_CACHEABLE |
-- MPU_RASR_BUFFERABLE`
abbrev pub privileged_sram_attributes : ℕ
privileged_sram_attributes =
    bit_or (2 ^ 24) (bit_or (2 ^ 28) (bit_or (2 ^ 19) (bit_or (2 ^ 17) (2 ^ 16))))

-- `MPU_RASR_AP_READ_ONLY_BOTH | MPU_RASR_CACHEABLE`
abbrev pub unprivileged_code_attributes : ℕ
unprivileged_code_attributes = bit_or (6 * 2 ^ 24) (2 ^ 17)

-- `MPU_RASR_AP_READ_ONLY_BOTH | MPU_RASR_XN | MPU_RASR_CACHEABLE`
abbrev pub unprivileged_rodata_attributes : ℕ
unprivileged_rodata_attributes = bit_or (6 * 2 ^ 24) (bit_or (2 ^ 28) (2 ^ 17))
