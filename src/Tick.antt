-- ===== src/Tick.antt =====
-- kernel/task.c: the tick, `tick_tasks`, with the checks of `kernel_check_invariants_locked`.
-- A failed check ends in `kernel_fatal`, which halts the processor; a check whose list walk does
-- not end never comes back.
pub mod Step
pub mod Check
use just_rt.Common.{
  ℕ, zero, suc, ◌+◌, ◌-◌, Bool, true, false, ◌&&◌, ◌||◌, Option, none, some, ltb, ◌==◌, ◌!=◌,
  if◌then◌else◌, u32_max, u32, add32, update,
}
use just_rt.Kernel.{Task, Kernel, Counters}
use just_rt.Kernel.Objects
use just_rt.Kernel.TaskState
use just_rt.Kernel.WaitKind
use just_rt.Kernel.InvariantCode
use just_rt.Wait.{end_wait, expired}
use just_rt.Priority.{restore_priority_chain}
use just_rt.Timer.{timer_tick, timer_invariant_check}
use just_rt.Sync.Mutex.Registry.{sync_invariant_check}

-- The first branch of the loop of `tick_tasks`
unfoldable pub sleeps : Task → Bool
sleeps t = (t.state == TaskState.sleeping) && ltb 0 t.sleep_ticks

unfoldable pub count_sleep : Task → Task
count_sleep t = record t {
  sleep_ticks = t.sleep_ticks - 1;
  state = if t.sleep_ticks - 1 == 0 then TaskState.ready else t.state;
}

-- The test of the second branch
unfoldable pub timed_out : ℕ → Task → Bool
timed_out now t =
    (t.state == TaskState.blocked)
    && (t.wait_forever == 0)
    && expired now t.wait_start t.wait_deadline

-- What the two branches store in the task itself.
unfoldable pub ticked_task : ℕ → Task → Task
ticked_task now t =
    if sleeps t then count_sleep t else (if timed_out now t then end_wait t 0 else t)

-- The timeout counters
unfoldable pub count_timeout : ℕ → Counters → Counters
count_timeout wait_kind c =
    if wait_kind == WaitKind.semaphore
    then record c { wait_timeout_semaphore = add32 c.wait_timeout_semaphore 1 }
    else (if wait_kind == WaitKind.queue_send
        then record c { wait_timeout_queue_send = add32 c.wait_timeout_queue_send 1 }
        else (if wait_kind == WaitKind.queue_receive
            then record c { wait_timeout_queue_receive = add32 c.wait_timeout_queue_receive 1 }
            else (if wait_kind == WaitKind.mutex
                then record c { wait_timeout_mutex = add32 c.wait_timeout_mutex 1 }
                else c)))

-- The owner of the mutex that the task waited for, read before the wait ends.
unfoldable pub timeout_owner : Task → (ℕ → Objects.Mutex) → ℕ → Option ℕ
timeout_owner t mutexes task_count =
    let m = mutexes t.wait_object in
    if (t.wait_kind == WaitKind.mutex) && (t.wait_object != 0)
    then (if (m.locked != 0) && ltb m.owner task_count then some m.owner else none)
    else none

-- The body of the loop, up to the restoration of the owner's priority.
abbrev pub ended : Kernel → ℕ → Kernel
ended k i = record k {
  tasks = update k.tasks i (ticked_task k.ticks (k.tasks i));
  counters =
      if timed_out k.ticks (k.tasks i)
      then count_timeout (k.tasks i).wait_kind k.counters
      else k.counters;
}

-- The body of the loop of `tick_tasks`. A sleeping task is not blocked, so the second branch needs
-- no test that the first was not taken.
unfoldable pub tick_task : Kernel → ℕ → Kernel
tick_task k i =
    let restored : Kernel = elim (timeout_owner (k.tasks i) k.mutexes k.task_count) [
      | none ↦ ended k i
      | some owner ↦ restore_priority_chain (ended k i) owner
    ] in
    if timed_out k.ticks (k.tasks i) then restored else ended k i

-- The loop of `tick_tasks`, with the rounds left.
unfoldable pub tick_scan : ℕ → Kernel → ℕ → Kernel
tick_scan zero k index = k
tick_scan (suc rounds) k index = tick_scan rounds (tick_task k index) (index + 1)

-- `tick_tasks` up to the checks.
unfoldable pub advance : Kernel → Kernel
advance k =
    let timed = timer_tick (record k { ticks = add32 k.ticks 1 }) in
    tick_scan timed.task_count timed 0

-- How a tick ends.
pub data Ticked : Type 0 where
  continued : Kernel → Ticked
  halted : Kernel → Ticked
  hung : Ticked

-- `JRT_FATAL_KERNEL_INVARIANT`
abbrev pub fatal_kernel_invariant : ℕ
fatal_kernel_invariant = 2

-- `kernel_invariant_fail`, with the reason that `kernel_fatal` stores.
unfoldable pub invariant_fail : Kernel → ℕ → ℕ → ℕ → ℕ → Kernel
invariant_fail k code task_id object aux = record k {
  invariant = record {
    active = 1;
    code = code;
    task = task_id;
    object = u32 object;
    aux = aux;
    tick = k.ticks;
  };
  fatal_reason = fatal_kernel_invariant;
}

-- The checks of one task in `kernel_check_invariants_locked`: the code of the first that fails.
unfoldable pub task_code : Task → ℕ
task_code t =
    if ltb TaskState.suspended t.state
    then InvariantCode.task_state
    else (if t.state == TaskState.blocked
        then (if t.wait_object == 0
            then InvariantCode.blocked_wait_object
            else (if (t.wait_kind == WaitKind.idle) || ltb WaitKind.timer_service t.wait_kind
                then InvariantCode.blocked_wait_kind
                else InvariantCode.ok))
        else (if (t.wait_object != 0)
              || (t.wait_kind != WaitKind.idle)
              || (t.wait_start != 0)
              || (t.wait_deadline != 0)
              || (t.wait_forever != 0)
            then InvariantCode.nonblocked_wait_metadata
            else InvariantCode.ok))

-- The loop over the tasks: the first that fails, with the rounds left.
unfoldable pub scan_tasks : (ℕ → Task) → ℕ → ℕ → Option ℕ
scan_tasks tasks zero index = none
scan_tasks tasks (suc rounds) index =
    let rest = scan_tasks tasks rounds (index + 1) in
    if task_code (tasks index) == InvariantCode.ok then rest else some index

-- A result of `sync_invariant_check` or `timer_invariant_check`, and what comes after it.
unfoldable pub checked : Kernel → Option (ℕ × ℕ) → Ticked → Ticked
checked k none next = hung
checked k (some (code, object)) next =
    if code == InvariantCode.ok then next else halted (invariant_fail k code u32_max object 0)

-- `kernel_check_invariants_locked`; `address` gives the address of each element of `tasks`.
unfoldable pub check_invariants : (ℕ → ℕ) → Kernel → Ticked
check_invariants address k = elim (scan_tasks k.tasks k.task_count 0) [
  | none ↦
      checked k (sync_invariant_check k k.task_count)
        (checked k (timer_invariant_check k) (continued k))
  | some i ↦
      let t = k.tasks i in
      let code = task_code t in
      halted (
        invariant_fail k code i (address i)
          (if code == InvariantCode.task_state then t.state else t.wait_kind))
]

-- `tick_tasks`
unfoldable pub tick_tasks : (ℕ → ℕ) → Kernel → Ticked
tick_tasks address k = check_invariants address (advance k)
