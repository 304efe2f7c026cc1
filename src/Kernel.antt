-- ===== src/Kernel.antt =====
-- The kernel's state: `task_t`, the objects of kernel/sync.h, kernel/kernel.h and kernel/timer.h,
-- and the file-scope variables of kernel/task.c, kernel/sync.c and kernel/timer.c, the MPU
-- variables of arch/cortex_m/port_cm7.c, and what the kernel sees of the processor (exception
-- context, pended PendSV).
-- A pointer is a number and null is 0. Each C type has a memory of its own, so objects of
-- different types do not overlap. `current_task` always points to `tasks[g_current_task_index]`.
pub mod TaskState
pub mod WaitKind
pub mod Objects
pub mod InvariantCode
pub mod Status
use just_rt.Common.{ℕ, Bool, true}
use just_rt.Kernel.Objects.{Mutex, Queue, Timer}

-- `task_t`. The state and the wait kind are stored as numbers (see `TaskState` and `WaitKind`).
pub record Task : Type 0 where
  pub stack_bottom : ℕ
  pub stack_top : ℕ
  pub sp : ℕ
  pub state : ℕ
  pub sleep_ticks : ℕ
  pub run_count : ℕ
  pub minimum_sp : ℕ
  pub high_water_words : ℕ
  pub entry : ℕ
  pub argument : ℕ
  pub priority : ℕ
  pub base_priority : ℕ
  pub name : ℕ
  pub flags : ℕ
  pub private_data_base : ℕ
  pub private_data_size : ℕ
  pub wait_object : ℕ
  pub wait_kind : ℕ
  pub wait_start : ℕ
  pub wait_deadline : ℕ
  pub wait_forever : ℕ
  pub wait_result : ℕ
  pub notification_value : ℕ
  pub event_wait_bits : ℕ
  pub event_wait_all : ℕ
  pub event_clear_on_exit : ℕ

-- The diagnostic counters of task.c and sync.c.
pub record Counters : Type 0 where
  pub wait_timeout_semaphore : ℕ
  pub wait_timeout_queue_send : ℕ
  pub wait_timeout_queue_receive : ℕ
  pub wait_timeout_mutex : ℕ
  pub sync_context_misuse : ℕ
  pub misuse_semaphore_take : ℕ
  pub misuse_semaphore_give : ℕ
  pub misuse_semaphore_give_from_isr : ℕ
  pub misuse_mutex_lock : ℕ
  pub misuse_mutex_unlock : ℕ
  pub misuse_queue_send : ℕ
  pub misuse_queue_receive : ℕ
  pub misuse_queue_send_from_isr : ℕ
  pub isr_queue_send_attempted : ℕ
  pub isr_queue_send_accepted : ℕ
  pub isr_queue_send_dropped : ℕ
  pub isr_queue_count_high_water : ℕ

-- The scheduler's and the stack check's diagnostics of task.c.
pub record SchedStats : Type 0 where
  pub context_switches : ℕ
  pub ready_scan_depth_max : ℕ
  pub pass1_iters_total : ℕ
  pub pass2_iters_total : ℕ
  pub pass2_iters_max : ℕ
  pub stack_fault : ℕ
  pub stack_fault_task : ℕ
  pub stack_fault_sp : ℕ
  pub stack_high_water_words : ℕ
  pub stack_high_water_task : ℕ

-- `g_kernel_invariant_*`
pub record InvariantRecord : Type 0 where
  pub active : ℕ
  pub code : ℕ
  pub task : ℕ
  pub object : ℕ
  pub aux : ℕ
  pub tick : ℕ

-- The MPU of port_cm7.c: the `g_mpu_*` variables, MPU_CTRL, SCB_SHCSR, and MPU_RBAR and MPU_RASR of
-- each region number.
pub record Mpu : Type 0 where
  pub stack_guard_base : ℕ
  pub stack_guard_updates : ℕ
  pub private_data_base : ℕ
  pub private_data_size : ℕ
  pub private_data_updates : ℕ
  pub ctrl : ℕ
  pub shcsr : ℕ
  pub rbar : ℕ → ℕ
  pub rasr : ℕ → ℕ

pub record Kernel : Type 0 where
  pub tasks : ℕ → Task
  pub task_count : ℕ
  pub application_task_count : ℕ
  pub current : ℕ
  pub initialized : ℕ
  pub started : ℕ
  pub timer_service_task_index : ℕ
  pub ticks : ℕ
  pub in_isr : Bool
  pub switch_pending : Bool
  pub words : ℕ → ℕ
  pub bytes : ℕ → ℕ
  pub semaphores : ℕ → ℕ
  pub mutexes : ℕ → Mutex
  pub mutex_list : ℕ
  pub mutex_nodes : ℕ
  pub queues : ℕ → Queue
  pub event_groups : ℕ → ℕ
  pub timers : ℕ → Timer
  pub timer_list : ℕ
  pub timer_nodes : ℕ
  pub counters : Counters
  pub sched : SchedStats
  pub invariant : InvariantRecord
  pub fatal_reason : ℕ
  pub mpu : Mpu

-- `current_task`
abbrev pub current_task : Kernel → Task
current_task k = k.tasks k.current

-- `arch_request_switch()`, and `arch_yield()`, whose SVC does no more than pend PendSV.
abbrev pub request_switch : Kernel → Kernel
request_switch k = record k { switch_pending = true }
