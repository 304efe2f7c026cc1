-- ===== src/Benchmark.antt =====
-- kernel/benchmark.c, as built with JRT_ENABLE_TASK_BENCHMARK 1. What `arch_cycle_counter_read()`
-- returns is an argument.
pub mod Bits
pub mod Divide
pub mod Measured
use Prim.Native.Nat.{bit_or}
use just_rt.Common.{
  ℕ, zero, suc, ◌+◌, ◌-◌, ◌*◌, ◌/◌, ◌%◌, ◌^◌, Bool, ◌||◌, Option, none, some, ltb, leb, ◌==◌, ◌!=◌,
  if◌then◌else◌, u32_max, add32, sub32, update,
}
use just_rt.Kernel.{Kernel}
use just_rt.Service.Lifecycle.{StackInfo, get_stack_info}
use just_rt.Kernel.Status.{Status}
use just_rt.Kernel.Status

-- `JRT_TaskBenchmarkRecord_t`
pub record Record : Type 0 where
  pub release_count : ℕ
  pub completion_count : ℕ
  pub coalesced_count : ℕ
  pub release_cycle : ℕ
  pub activation_start_cycle : ℕ
  pub max_release_latency_cycles : ℕ
  pub max_activation_cycles : ℕ
  pub period_cycles : ℕ
  pub release_pending : ℕ
  pub activation_active : ℕ

-- The file-scope variables of benchmark.c.
pub record Benchmark : Type 0 where
  pub records : ℕ → Record
  pub cycle_counter_available : ℕ
  pub task_count : ℕ
  pub cycle_frequency_hz : ℕ
  pub initialized : ℕ

-- The loop of `divide_u64_u32`, with the value of `bit`: the quotient.
unfoldable pub divide_loop : ℕ → ℕ → ℕ → ℕ → ℕ → ℕ
divide_loop numerator denominator zero remainder quotient = quotient
divide_loop numerator denominator (suc bit) remainder quotient =
    let shifted = bit_or (remainder * 2 % 2 ^ 64) (numerator / 2 ^ bit % 2) in
    let fits = leb denominator shifted in
    divide_loop numerator denominator bit (if fits then shifted - denominator else shifted)
      (if fits then bit_or quotient (2 ^ bit) else quotient)

-- `divide_u64_u32`
unfoldable pub divide_u64_u32 : ℕ → ℕ → ℕ
divide_u64_u32 numerator denominator = divide_loop numerator denominator 64 0 0

-- `period_to_cycles`, for the rates JRT_CORE_CLOCK_HZ and JRT_TICK_RATE_HZ.
unfoldable pub period_to_cycles : ℕ → ℕ → ℕ → ℕ
period_to_cycles clock_hz tick_rate_hz period_ticks =
    let cycles = divide_u64_u32 (period_ticks * clock_hz % 2 ^ 64) tick_rate_hz in
    if leb cycles u32_max then cycles else 0

-- `clear_record`
abbrev pub cleared : Record
cleared = record {
  release_count = 0;
  completion_count = 0;
  coalesced_count = 0;
  release_cycle = 0;
  activation_start_cycle = 0;
  max_release_latency_cycles = 0;
  max_activation_cycles = 0;
  period_cycles = 0;
  release_pending = 0;
  activation_active = 0;
}

-- What `task_benchmark_release_locked` does to a record.
unfoldable pub released : Record → ℕ → Bool → Record
released r now coalesced =
    let counted = record r {
      release_count = add32 r.release_count 1;
      coalesced_count = if coalesced then add32 r.coalesced_count 1 else r.coalesced_count;
    } in
    if r.release_pending == 0
    then record counted { release_cycle = now; release_pending = 1 }
    else counted

-- What `task_benchmark_start_locked` does to a record.
unfoldable pub started : Record → ℕ → Record
started r now =
    let latency = sub32 now r.release_cycle in
    if (r.release_pending == 0) || (r.activation_active != 0) then r else record r {
      max_release_latency_cycles =
          if ltb r.max_release_latency_cycles latency
          then latency
          else r.max_release_latency_cycles;
      activation_start_cycle = now;
      release_pending = 0;
      activation_active = 1;
    }

-- What `task_benchmark_complete_locked` does to a record.
unfoldable pub completed : Record → ℕ → Record
completed r now =
    let duration = sub32 now r.activation_start_cycle in
    if r.activation_active == 0 then r else record r {
      max_activation_cycles =
          if ltb r.max_activation_cycles duration then duration else r.max_activation_cycles;
      completion_count = add32 r.completion_count 1;
      activation_active = 0;
    }

-- A write of one record, if there is a cycle counter.
unfoldable pub measure : Benchmark → ℕ → (Record → Record) → Benchmark
measure b task_id f =
    if b.cycle_counter_available == 0
    then b
    else record b { records = update b.records task_id (f (b.records task_id)) }

-- `task_benchmark_release_locked`
unfoldable pub release_locked : Benchmark → ℕ → ℕ → Bool → Benchmark
release_locked b task_id now coalesced = measure b task_id (λ r. released r now coalesced)

-- `task_benchmark_coalesced_locked`
unfoldable pub coalesced_locked : Benchmark → ℕ → Benchmark
coalesced_locked b task_id =
    measure b task_id (λ r. record r { coalesced_count = add32 r.coalesced_count 1 })

-- `task_benchmark_start_locked`
unfoldable pub start_locked : Benchmark → ℕ → ℕ → Benchmark
start_locked b task_id now = measure b task_id (λ r. started r now)

-- `task_benchmark_complete_locked`
unfoldable pub complete_locked : Benchmark → ℕ → ℕ → Benchmark
complete_locked b task_id now = measure b task_id (λ r. completed r now)

-- The pending releases that `JRT_BenchmarkGetTask` reports.
unfoldable pub pending_count : Record → ℕ
pending_count r =
    if ltb r.release_count r.completion_count
      || ltb (sub32 r.release_count r.completion_count) r.coalesced_count
    then 0
    else sub32 r.release_count (add32 r.completion_count r.coalesced_count)

-- What `JRT_BenchmarkReset` does to a record.
unfoldable pub restarted : Record → ℕ → Record
restarted r now = record r {
  release_count = 0;
  completion_count = 0;
  coalesced_count = 0;
  max_release_latency_cycles = 0;
  max_activation_cycles = 0;
  release_cycle = if r.release_pending != 0 then now else r.release_cycle;
  activation_start_cycle = if r.activation_active != 0 then now else r.activation_start_cycle;
}

-- The loop of `JRT_BenchmarkReset`, with the rounds left.
unfoldable pub restart_all : (ℕ → Record) → ℕ → ℕ → ℕ → ℕ → Record
restart_all records now zero index = records
restart_all records now (suc rounds) index =
    restart_all (update records index (restarted (records index) now)) now rounds (index + 1)

-- `JRT_BenchmarkReset`; `in_task` is `task_benchmark_is_task_context()`.
unfoldable pub reset : Benchmark → Bool → ℕ → Benchmark × Status
reset b in_task now =
    if in_task
    then (record b { records = restart_all b.records now b.task_count 0 }, Status.ok)
    else (b, Status.invalid_context)

-- The first loop of `task_benchmark_init`, with the rounds left.
unfoldable pub clear_records : (ℕ → Record) → ℕ → ℕ → ℕ → Record
clear_records records zero index = records
clear_records records (suc rounds) index =
    clear_records (update records index cleared) rounds (index + 1)

-- The second loop, with the rounds left; `periods` are the `benchmark_period_ticks` of the tasks.
unfoldable pub set_periods : (ℕ → ℕ) → (ℕ → Record) → ℕ → ℕ → ℕ → Record
set_periods cycles records zero index = records
set_periods cycles records (suc rounds) index =
    set_periods cycles
      (update records index (record (records index) { period_cycles = cycles index })) rounds
      (index + 1)

-- `task_benchmark_init`; `available` is `arch_cycle_counter_available()`.
unfoldable pub init : ℕ → ℕ → ℕ → ℕ → (ℕ → ℕ) → ℕ → Benchmark → Benchmark
init clock_hz tick_rate_hz available task_count periods application_task_count b = record b {
  cycle_counter_available = available;
  task_count = add32 application_task_count 1;
  cycle_frequency_hz = if available != 0 then clock_hz else 0;
  records =
      set_periods (λ index. period_to_cycles clock_hz tick_rate_hz (periods index))
        (clear_records b.records task_count 0) application_task_count 0;
  initialized = 1;
}

-- `JRT_BenchmarkInfo_t`
pub record Info : Type 0 where
  pub enabled : ℕ
  pub task_count : ℕ
  pub cycle_frequency_hz : ℕ

-- `JRT_BenchmarkGetInfo` with a place for the answer.
unfoldable pub get_info : Benchmark → Status × Option Info
get_info b = if b.initialized == 0 then (Status.not_initialized, none) else (
  Status.ok,
  some (record {
    enabled = b.cycle_counter_available;
    task_count = b.task_count;
    cycle_frequency_hz = b.cycle_frequency_hz;
  }),
)

-- `JRT_TaskBenchmarkInfo_t`
pub record TaskInfo : Type 0 where
  pub release_count : ℕ
  pub completion_count : ℕ
  pub pending_count : ℕ
  pub coalesced_count : ℕ
  pub max_release_latency_cycles : ℕ
  pub max_activation_cycles : ℕ
  pub period_cycles : ℕ
  pub flags : ℕ
  pub stack_words : ℕ
  pub used_stack_words : ℕ

-- What `JRT_BenchmarkGetTask` copies from the record, the task and its stack.
unfoldable pub task_info : Kernel → Record → ℕ → StackInfo → TaskInfo
task_info k r task_id stack = record {
  release_count = r.release_count;
  completion_count = r.completion_count;
  pending_count = pending_count r;
  coalesced_count = r.coalesced_count;
  max_release_latency_cycles = r.max_release_latency_cycles;
  max_activation_cycles = r.max_activation_cycles;
  period_cycles = r.period_cycles;
  flags = (k.tasks task_id).flags;
  stack_words = stack.stack_words;
  used_stack_words = stack.used_words;
}

-- `JRT_BenchmarkGetTask` with a place for the answer; what it stores before it fails at the stack
-- is left out.
unfoldable pub get_task : Kernel → Benchmark → ℕ → Status × Option TaskInfo
get_task k b task_id =
    let answered : Status × Option TaskInfo = elim (get_stack_info k task_id) [
      | none ↦ (Status.not_initialized, none)
      | some stack ↦ (Status.ok, some (task_info k (b.records task_id) task_id stack))
    ] in
    if b.initialized == 0
    then (Status.not_initialized, none)
    else (if leb b.task_count task_id then (Status.invalid_task, none) else answered)
