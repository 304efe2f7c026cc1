-- ===== src/Lib.antt =====
-- The kernel of justRT, a preemptive real-time kernel for Cortex-M7, modelled from kernel/ and
-- from the parts of arch/cortex_m/port_cm7.c that compute something.
--
-- The program. A fixed array of tasks shares one processor. A task is ready, running, sleeping,
-- blocked or suspended, and a blocked task records what it waits for. The synchronisation services
-- of kernel/sync.c, the event groups and notifications of kernel/task.c and the timer service
-- block and wake tasks through a few functions of kernel/task.c (`task_wait_begin`,
-- `task_wait_end`, `task_wake_get_id`, `task_block_until_locked`). A mutex lends the priority of
-- its waiters to its owner. The tick interrupt runs `tick_tasks`: it advances the timers of
-- kernel/timer.c, counts down sleeping tasks, ends the waits whose deadlines have passed, and
-- checks the kernel's data. The PendSV interrupt runs `pendsv_switch`, which checks the stack of
-- the task that leaves, chooses the next one and sets up its MPU regions. kernel/mempool.c stands
-- alone.
--
-- The model. The whole state of the kernel is one record, `Kernel` of Kernel.antt. Each C type has
-- a memory of its own, a function from addresses, so objects of different types do not overlap; a
-- pointer is a number and null is 0. A `uint32_t` is a number below 2 ^ 32 and each write that can
-- wrap is written with its `% 2 ^ 32`. The functions of the source become functions on this
-- record. Each runs inside `arch_critical_enter` and `arch_critical_exit`, so it is one step. A
-- service that blocks is cut at `arch_yield()`: the first part ends as `returned` or `blocked`,
-- and what it does when the scheduler runs the task again is a second function (`send_resume`,
-- `take_resume`, `wait_bits_resume`), which starts from the kernel as it is then. The deadline of
-- a wait is an argument, as it is computed once and kept across the rounds of a queue operation.
-- The build is the default one, with JRT_ARCH_HAS_MPU 1 and JRT_ENABLE_TASK_BENCHMARK 0, so that
-- the hooks of the benchmark do nothing.
--
-- The files.
--   Common: numbers, tests, 32-bit words, memories and lists.
--   Intrusive: the walks over lists linked through `next`, which sync.c and timer.c share.
--   Kernel: the state and the enumerations of kernel/kernel.h, kernel/sync.h and kernel/timer.h.
--   Wait: deadlines, waits, wake-ups and the choice of the waiter (kernel/task.c).
--   Init: `JRT_KernelInit` with its validation, the initial stacks, `JRT_KernelStart` (kernel/task.c,
--     `arch_build_initial_stack` and `configure_memory_regions` of arch/cortex_m/port_cm7.c). The
--     constants of JRTConfig.h and what the linker places are the fields of `Build`.
--   System: the kernel as one step relation: calls of tasks and interrupt handlers, the tick, and
--     PendSV, in any order.
--   Priority: inheritance and restoration of priorities (kernel/task.c).
--   Sched, Mpu: `update_stack_usage` and `pendsv_switch` of kernel/task.c, and the MPU regions of
--     arch/cortex_m/port_cm7.c.
--   Sync/Semaphore, Sync/Mutex, Sync/Queue: kernel/sync.c.
--   Timer: kernel/timer.c, with the wait of the timer service from kernel/task.c.
--   Tick: `tick_tasks`, `kernel_check_invariants_locked` and `kernel_invariant_fail` of kernel/task.c.
--   Service: suspension, sleep, task queries, notifications and event groups (kernel/task.c), and
--     `svc_dispatch` of arch/cortex_m/port_cm7.c.
--   Ticks: `JRT_MillisecondsToTicks` of arch/cortex_m/port_cm7.c, `JRT_KernelTickReached` and
--     `JRT_TaskDelayUntil` of kernel/task.c.
--   MemoryPool: kernel/mempool.c.
--   Benchmark: kernel/benchmark.c, with the build's JRT_ENABLE_TASK_BENCHMARK 1.
--   Tests: a small kernel, runs of the functions on it, and the theorems at concrete values.
-- The children of a component hold its proofs; a file named for a property holds what leads to it.
--
-- Bounds. The loops over tasks recurse on `task_count`. A walk over a list takes the number of
-- rounds as an argument: the kernel counts the mutexes and timers that it links (`mutex_nodes` and
-- `timer_nodes`, which the source does not have), so for a null-terminated list the count is
-- enough, and the walks of the two invariant checks, which report a cycle, get one round more and
-- end as `none` where the source would not end. The loops that double an MPU region size get 32
-- rounds: after them the 32-bit size is 0 for good, so a loop that has not ended never does. That
-- ends as `none`, and in PendSV as `hung`. Nothing else has fuel.
--
-- Not modelled: the recording of fatal errors and faults (kernel/fatal.c, arch/cortex_m/fault.c; a
-- fatal error is an outcome of the model), registers and exception entry (the rest of
-- arch/cortex_m), the platforms, and a null pointer to a pool. What a step of System assumes of its
-- caller stands in the step: a task that blocks runs and is not the idle task, an object that a
-- task waits for is not null, a mutex is registered before it is used, and it is not locked
-- 2 ^ 32 - 1 times at once.
pub mod Common
pub mod Intrusive
pub mod Kernel
pub mod Wait
pub mod Priority
pub mod Sync
pub mod Timer
pub mod MemoryPool
pub mod Tick
pub mod Service
pub mod Ticks
pub mod Benchmark
pub mod Mpu
pub mod Init
pub mod Sched
pub mod System
pub mod Tests
