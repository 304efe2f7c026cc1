-- ===== src/Init/Check.antt =====
-- The checks of `JRT_KernelInit` of task.c, in their order.
pub mod Valid
pub mod Sound
pub mod Parts
pub mod Single
pub mod Exact
use Prim.Native.Nat.{bit_and}
use just_rt.Common.{
  ℕ, zero, suc, ◌+◌, ◌*◌, ◌/◌, ◌%◌, Bool, true, false, ◌&&◌, ◌||◌, Option, none, some, ltb, ◌==◌,
  ◌!=◌, if◌then◌else◌, u32, u32_max, add32, sub32,
}
use just_rt.Kernel.Status.{Status}
use just_rt.Kernel.Status
use just_rt.Init.Config.{
  TaskDefinition, KernelConfig, Build, internal_task_count, max_kernel_tasks, guard_bytes,
  stack_end,
}

-- The first test of `validate_task_stack`
unfoldable pub stack_misplaced : Build → TaskDefinition → Bool
stack_misplaced b d =
    (d.stack_buffer == 0)
    || (d.stack_guard == 0)
    || ltb d.stack_words b.minimum_stack_words
    || (d.stack_words % 2 != 0)
    || (d.stack_buffer % 8 != 0)
    || (d.stack_guard % 32 != 0)
    || (add32 d.stack_guard guard_bytes != d.stack_buffer)
    || ltb (u32_max / 4) d.stack_words

-- `ranges_overlap`
unfoldable pub ranges_overlap : ℕ → ℕ → ℕ → ℕ → Bool
ranges_overlap first_start first_end second_start second_end =
    ltb first_start second_end && ltb second_start first_end

-- Whether a test holds of an index, from `index` on, with the rounds left: a loop that returns at
-- the first index for which the test holds.
unfoldable pub any_from : (ℕ → Bool) → ℕ → ℕ → Bool
any_from test zero index = false
any_from test (suc rounds) index = test index || any_from test rounds (index + 1)

-- The test in the loop of `validate_task_stack`
unfoldable pub stacks_overlap : TaskDefinition → TaskDefinition → Bool
stacks_overlap d other = ltb d.stack_guard (stack_end other) && ltb other.stack_guard (stack_end d)

-- `validate_task_stack`
unfoldable pub validate_task_stack : Build → KernelConfig → ℕ → Status
validate_task_stack b c index =
    let d = c.tasks index in
    if stack_misplaced b d
    then Status.invalid_stack
    else (if ltb (stack_end d) d.stack_buffer
        then Status.invalid_stack
        else (if any_from (λ previous. stacks_overlap d (c.tasks previous)) index 0
            then Status.invalid_stack
            else Status.ok))

-- `JRT_TASK_FLAG_UNPRIVILEGED` in the flags.
abbrev pub is_unprivileged : ℕ → Bool
is_unprivileged flags = flags % 2 != 0

abbrev pub private_end : TaskDefinition → ℕ
private_end d = add32 d.private_data_base d.private_data_size

-- The second test of `validate_private_region`
unfoldable pub region_misplaced : TaskDefinition → Bool
region_misplaced d =
    let base = d.private_data_base in
    let size = d.private_data_size in
    (base == 0)
    || ltb size 32
    || (bit_and size (sub32 size 1) != 0)
    || (bit_and base (sub32 size 1) != 0)
    || (if is_unprivileged d.flags then false else true)

-- The third test: the region ends before it begins, or is not inside its section.
unfoldable pub region_outside : Build → TaskDefinition → Bool
region_outside b d =
    ltb (private_end d) d.private_data_base
    || ltb d.private_data_base b.private_data_start
    || ltb b.private_data_end (private_end d)

-- The two tests in the loop of `validate_private_region`, for the task `index` and another.
unfoldable pub region_taken : KernelConfig → ℕ → ℕ → Bool
region_taken c index other =
    let d = c.tasks index in
    let o = c.tasks other in
    ranges_overlap d.private_data_base (private_end d) o.stack_guard (stack_end o)
    || (ltb other index
        && (o.private_data_base != 0)
        && ranges_overlap d.private_data_base (private_end d) o.private_data_base (private_end o))

-- The end of a storage of guard words and a stack.
abbrev pub storage_end : ℕ → ℕ → ℕ
storage_end storage stack_words = add32 storage (u32 ((stack_words + 8) * 4))

-- The last test, against the storage of the kernel's own tasks.
unfoldable pub region_in_kernel : Build → TaskDefinition → Bool
region_in_kernel b d =
    ranges_overlap d.private_data_base (private_end d) b.timer_service_storage
      (storage_end b.timer_service_storage b.timer_service_stack_words)
    || ranges_overlap d.private_data_base (private_end d) b.idle_storage
        (storage_end b.idle_storage b.idle_stack_words)

-- `validate_private_region`
unfoldable pub validate_private_region : Build → KernelConfig → ℕ → Status
validate_private_region b c index =
    let d = c.tasks index in
    if (d.private_data_base == 0) && (d.private_data_size == 0)
    then Status.ok
    else (if region_misplaced d
        then Status.invalid_memory_region
        else (if region_outside b d
            then Status.invalid_memory_region
            else (if any_from (region_taken c index) c.task_count 0
                then Status.invalid_memory_region
                else (if region_in_kernel b d then Status.invalid_memory_region else Status.ok))))

abbrev pub is_ok : Status → Bool
is_ok Status.ok = true
is_ok _ = false

-- The body of the first loop of `JRT_KernelInit`
unfoldable pub check_definition : Build → KernelConfig → ℕ → Status
check_definition b c index =
    let d = c.tasks index in
    if d.entry == 0
    then Status.invalid_entry
    else (if ltb b.max_task_priority d.priority
        then Status.invalid_priority
        else (if is_ok (validate_task_stack b c index) then Status.ok else Status.invalid_stack))

-- The body of the second loop
unfoldable pub check_region : Build → KernelConfig → ℕ → Status
check_region b c index =
    if is_ok (validate_private_region b c index) then Status.ok else Status.invalid_memory_region

-- A loop that returns the first status that is not JRT_STATUS_OK, with the rounds left.
unfoldable pub first_error : (ℕ → Status) → ℕ → ℕ → Status
first_error check zero index = Status.ok
first_error check (suc rounds) index =
    let rest = first_error check rounds (index + 1) in
    if is_ok (check index) then rest else check index

-- `JRT_KernelInit` up to its first write; `none` is a null pointer.
unfoldable pub validate : Build → Option KernelConfig → Status
validate b none = Status.invalid_config
validate b (some c) =
    let definitions = first_error (check_definition b c) c.task_count 0 in
    if (c.table == 0) || (c.task_count == 0)
    then Status.invalid_config
    else (if ltb b.max_application_tasks c.task_count
        then Status.too_many_tasks
        else (if ltb (add32 b.max_application_tasks max_kernel_tasks)
              (add32 c.task_count internal_task_count)
            then Status.too_many_tasks
            else (if is_ok definitions
                then first_error (check_region b c) c.task_count 0
                else definitions)))
