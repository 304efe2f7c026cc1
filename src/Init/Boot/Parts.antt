-- ===== src/Init/Boot/Parts.antt =====
-- The steps of `JRT_KernelInit` of task.c after the checks: the MPU's loops end, and what the
-- prepared tasks and the larger table keep.
use Prim.Native.Nat.{bit_or}
use just_rt.Common.{
  ℕ, ◌+◌, ◌^◌, ◌<◌, ◌≤◌, ◌≡◌, ◌⊎◌, inl, inr, refl, arith, ◌==◌, Bool-cases, ltb, ltb→lt, ==→eq,
  ==→ne, ltb→le, some, List, [], ◌∷◌,
}
use just_rt.Kernel.{Task, Kernel, Mpu}
use just_rt.Kernel.Objects
use just_rt.Wait.{begin_wait}
use just_rt.Wait.Metadata.{TaskOk}
use just_rt.Mpu.{
  Area, configure_areas, configure_fixed, configure_mpu, clear_regions, region_count, enable_mpu,
  set_task_stack_guard,
}
use just_rt.Mpu.Range.{configure_region_range_ends}
use just_rt.Sync.Mutex.Registry.{AllOk}
use just_rt.Mpu.Private.{PrivateSize, set_task_private_data-Programmed}
use just_rt.Init.Config.{TaskDefinition, KernelConfig, Build}
use just_rt.Init.Check.Valid.{NoRegion, RegionOk, RegionApart}
use just_rt.Init.Prepare.{described, reset_wait}
use just_rt.Init.Boot.{memory_regions}
use just_rt.Init.Boot.Tasks.{ready_task, service_task}

-- The sections of the linker script end by 2 ^ 31, the address space that one MPU region can hold.
pub record SectionsOk (b : Build) : Type 0 where
  pub functions : b.functions_end ≤ 2147483648
  pub svc : b.svc_end ≤ 2147483648
  pub rodata : b.rodata_end ≤ 2147483648
  pub task_data : b.task_data_end ≤ 2147483648

-- Every range of a list ends by 2 ^ 31.
abbrev Low : List Area → Type 0
Low [] = Unit {0}
Low (a ∷ rest) = (a.limit ≤ 2147483648) × Low rest

pub configure_areas_ends :
    (areas : List Area) (m : Mpu) → Low areas → (m' : Mpu) × (configure_areas areas m ≡ some m')
unfolding configure_areas
configure_areas_ends [] m low = (m, refl)
configure_areas_ends (a ∷ rest) m (h, low) =
    let (m', e) = configure_region_range_ends m a.region a.first a.limit a.attributes h in
    let (m'', e') = configure_areas_ends rest m' low in (m'', rw (configure_areas, e) e')

pub memory_regions-Low : (b : Build) → SectionsOk b → Low (memory_regions b)
unfolding memory_regions
memory_regions-Low b s =
    (omega arith, (omega arith, (s.functions, (s.svc, (s.rodata, (s.task_data, tt))))))

-- The end of `arch_configure_mpu` returns, and records the guard.
enable_mpu_ends :
    (fixed : Mpu) (guard base size : ℕ)
    → PrivateSize size
    → (m : Mpu) × (enable_mpu fixed guard base size ≡ some m) × (m.stack_guard_base ≡ guard)
unfolding enable_mpu set_task_stack_guard
enable_mpu_ends fixed guard base size fits =
    let reset : Mpu = record fixed {
      stack_guard_base = 0;
      stack_guard_updates = 0;
      private_data_base = 0;
      private_data_size = 0;
      private_data_updates = 0;
    } in
    let (m, e, _) = set_task_private_data-Programmed reset base size fits in
    (
      record (set_task_stack_guard m guard) { ctrl = bit_or 1 (2 ^ 2) },
      rw (enable_mpu, e) refl,
      ground arith,
    )

pub configure_mpu_ends :
    (b : Build) (m : Mpu) (guard base size : ℕ)
    → SectionsOk b
    → PrivateSize size
    → (m' : Mpu) × (configure_mpu (memory_regions b) m guard base size ≡ some m')
      × (m'.stack_guard_base ≡ guard)
unfolding configure_mpu configure_fixed
configure_mpu_ends b m guard base size s fits =
    let (fixed, e) =
      configure_areas_ends (memory_regions b)
        (record m {
          ctrl = 0;
          shcsr = bit_or m.shcsr (2 ^ 16);
          rasr = clear_regions m.rasr region_count 0;
        })
        (memory_regions-Low b s) in
    let (m', e', guarded) = enable_mpu_ends fixed guard base size fits in
    (m', rw (configure_mpu, configure_fixed, e) e', guarded)

-- The private regions of a valid configuration have sizes that the MPU holds.
pub region_size :
    (b : Build) (c : KernelConfig) (i : ℕ)
    → NoRegion (c.tasks i) ⊎ (RegionOk b (c.tasks i) × RegionApart b c i)
    → PrivateSize (c.tasks i).private_data_size
region_size b c i (inl (_, empty)) = inl empty
region_size b c i (inr (ok, _)) = inr (ok.large, omega (arith, ok.fits), ok.power)

pub ready_task-TaskOk : (t : Task) (d : TaskDefinition) → TaskOk (ready_task t d)
unfolding described reset_wait
ready_task-TaskOk t d = ground arith

pub service_task-TaskOk : (b : Build) (k : Kernel) (t : Task) → TaskOk (service_task b k t)
unfolding described reset_wait begin_wait
service_task-TaskOk b k t = ground arith

-- An application task, the timer service, the idle task, or no task.
pub index_cases : (i n : ℕ) → (i < n) ⊎ ((i ≡ n) ⊎ ((i ≡ n + 1) ⊎ (n + 1 < i)))
index_cases i n = elim (Bool-cases (ltb i n)) [
  | inl below ↦ inl (ltb→lt i n below)
  | inr above ↦ elim (Bool-cases (i == n)) [
    | inl same ↦ inr (inl (==→eq i n same))
    | inr other ↦ elim (Bool-cases (i == n + 1)) [
      | inl next ↦ inr (inr (inl (==→eq i (n + 1) next)))
      | inr past ↦
          inr (inr (inr (omega (arith, ltb→le i n above, ==→ne i n other, ==→ne i (n + 1) past))))
    ]
  ]
]

-- A larger table of tasks holds the owners of a smaller one.
pub AllOk-more :
    (count count' : ℕ) (mutexes : ℕ → Objects.Mutex) (xs : List ℕ)
    → count ≤ count'
    → AllOk count mutexes xs
    → AllOk count' mutexes xs
AllOk-more count count' mutexes [] h ok = tt
AllOk-more count count' mutexes (x ∷ xs) h (v, ok) = (
  record {
    no_owner = v.no_owner;
    no_recursion = v.no_recursion;
    has_owner = λ l. omega (arith, v.has_owner l);
    has_recursion = v.has_recursion;
    word = v.word;
  },
  AllOk-more count count' mutexes xs h ok,
)
