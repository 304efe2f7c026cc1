-- ===== src/Init/Check/Valid.antt =====
-- What a configuration must satisfy for `JRT_KernelInit` of task.c, in arithmetic without a bound.
use Prim.Native.Nat.{bit_and}
use just_rt.Common.{ℕ, ◌+◌, ◌-◌, ◌*◌, ◌%◌, ◌<◌, ◌≤◌, ◌≡◌, ◌≢◌, ◌⊎◌, u32_max}
use just_rt.Init.Config.{TaskDefinition, KernelConfig, Build}

-- The fields that the checks read are 32-bit words.
pub record Words (d : TaskDefinition) : Type 0 where
  pub stack_buffer : d.stack_buffer ≤ u32_max
  pub stack_words : d.stack_words ≤ u32_max
  pub stack_guard : d.stack_guard ≤ u32_max
  pub private_data_base : d.private_data_base ≤ u32_max
  pub private_data_size : d.private_data_size ≤ u32_max

-- The first address behind the stack, and behind the private data.
abbrev pub stack_limit : TaskDefinition → ℕ
stack_limit d = d.stack_buffer + 4 * d.stack_words

abbrev pub region_limit : TaskDefinition → ℕ
region_limit d = d.private_data_base + d.private_data_size

-- Two address ranges, each from its first address to the one behind it, have nothing in common.
abbrev pub Disjoint : ℕ → ℕ → ℕ → ℕ → Type 0
Disjoint a a' b b' = (a' ≤ b) ⊎ (b' ≤ a)

-- A guard of 32 aligned bytes, the stack right behind it, an even number of words and no fewer than
-- the port needs, all below 2 ^ 32.
pub record StackOk (b : Build) (d : TaskDefinition) : Type 0 where
  pub guarded : d.stack_guard ≢ 0
  pub aligned : d.stack_guard % 32 ≡ 0
  pub adjacent : d.stack_buffer ≡ d.stack_guard + 32
  pub even : d.stack_words % 2 ≡ 0
  pub enough : b.minimum_stack_words ≤ d.stack_words
  pub fits : stack_limit d < 4294967296

-- A private region has a power of two of 32 bytes or more, begins at a multiple of it, belongs to
-- an unprivileged task, and lies in its section.
pub record RegionOk (b : Build) (d : TaskDefinition) : Type 0 where
  pub placed : d.private_data_base ≢ 0
  pub large : 32 ≤ d.private_data_size
  pub power : bit_and d.private_data_size (d.private_data_size - 1) ≡ 0
  pub aligned : bit_and d.private_data_base (d.private_data_size - 1) ≡ 0
  pub unprivileged : d.flags % 2 ≡ 1
  pub after_start : b.private_data_start ≤ d.private_data_base
  pub before_end : region_limit d ≤ b.private_data_end
  pub fits : region_limit d < 4294967296

abbrev pub NoRegion : TaskDefinition → Type 0
NoRegion d = (d.private_data_base ≡ 0) × (d.private_data_size ≡ 0)

-- The storage of one of the kernel's own tasks: 8 guard words, then its stack.
abbrev pub storage_limit : ℕ → ℕ → ℕ
storage_limit storage stack_words = storage + 4 * (stack_words + 8)

-- The region of task `i` overlaps no stack, no region before it, and nothing of the kernel's tasks.
pub record RegionApart (b : Build) (c : KernelConfig) (i : ℕ) : Type 0 where
  pub stacks :
      (j : ℕ)
      → j < c.task_count
      → Disjoint
          (c.tasks i).private_data_base
          (region_limit (c.tasks i))
          (c.tasks j).stack_guard
          (stack_limit (c.tasks j))
  pub regions :
      (j : ℕ)
      → j < i
      → (c.tasks j).private_data_base ≢ 0
      → Disjoint
          (c.tasks i).private_data_base
          (region_limit (c.tasks i))
          (c.tasks j).private_data_base
          (region_limit (c.tasks j))
  pub timer_service :
      Disjoint
        (c.tasks i).private_data_base
        (region_limit (c.tasks i))
        b.timer_service_storage
        (storage_limit b.timer_service_storage b.timer_service_stack_words)
  pub idle :
      Disjoint
        (c.tasks i).private_data_base
        (region_limit (c.tasks i))
        b.idle_storage
        (storage_limit b.idle_storage b.idle_stack_words)

-- The configurations that `JRT_KernelInit` is to accept.
pub record Valid (b : Build) (c : KernelConfig) : Type 0 where
  pub table : c.table ≢ 0
  pub some_task : c.task_count ≢ 0
  pub room : c.task_count ≤ b.max_application_tasks
  pub entry : (i : ℕ) → i < c.task_count → (c.tasks i).entry ≢ 0
  pub priority : (i : ℕ) → i < c.task_count → (c.tasks i).priority ≤ b.max_task_priority
  pub stack : (i : ℕ) → i < c.task_count → StackOk b (c.tasks i)
  pub stacks_apart :
      (i j : ℕ)
      → j < i
      → i < c.task_count
      → Disjoint
          (c.tasks i).stack_guard
          (stack_limit (c.tasks i))
          (c.tasks j).stack_guard
          (stack_limit (c.tasks j))
  pub region :
      (i : ℕ)
      → i < c.task_count
      → NoRegion (c.tasks i) ⊎ (RegionOk b (c.tasks i) × RegionApart b c i)

-- What the linker and the compile-time checks of kernel.h guarantee: the sections and storages end
-- below 2 ^ 32, and the table of tasks has room for the kernel's own.
pub record BuildOk (b : Build) : Type 0 where
  pub table_room : b.max_application_tasks ≤ 4294967292
  pub private_data_end : b.private_data_end ≤ u32_max
  pub timer_service : storage_limit b.timer_service_storage b.timer_service_stack_words ≤ u32_max
  pub idle : storage_limit b.idle_storage b.idle_stack_words ≤ u32_max
