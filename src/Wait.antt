-- ===== src/Wait.antt =====
-- kernel/task.c: the wait and wake transitions that every blocking service shares.
-- A service that blocks ends its first part at `arch_yield()`. What it does when the scheduler
-- runs the task again is a function of its own, which starts from the kernel as it is then.
pub mod Expiry
pub mod Select
pub mod Wake
pub mod Waiters
pub mod Metadata
use just_rt.Common.{
  ℕ, zero, suc, ◌+◌, Bool, ◌&&◌, ◌||◌, true, ltb, leb, ◌==◌, ◌!=◌, if◌then◌else◌, u32_max, add32,
  sub32, update,
}
use just_rt.Kernel.{Task, Kernel, request_switch}
use just_rt.Kernel.TaskState
use just_rt.Kernel.WaitKind

-- `JRT_WAIT_FOREVER`
abbrev pub wait_forever : ℕ
wait_forever = u32_max

-- `task_wait_deadline_t`
pub record Deadline : Type 0 where
  pub start : ℕ
  pub tick : ℕ
  pub forever : ℕ

-- `task_wait_deadline`
abbrev pub wait_deadline : Kernel → ℕ → Deadline
wait_deadline k timeout = record {
  start = k.ticks;
  tick = add32 k.ticks timeout;
  forever = if timeout == wait_forever then 1 else 0;
}

-- What `task_wait_begin` and `task_wait_begin_until` store in the task.
unfoldable pub begin_wait : Task → ℕ → ℕ → Deadline → Task
begin_wait t object wait_kind d = record t {
  wait_object = object;
  wait_kind = wait_kind;
  wait_start = d.start;
  wait_deadline = d.tick;
  wait_forever = d.forever;
  wait_result = 0;
  state = TaskState.blocked;
}

-- `task_wait_begin_until`
abbrev pub wait_begin_until : Kernel → ℕ → ℕ → ℕ → Deadline → Kernel
wait_begin_until k i object wait_kind d = record k {
  tasks = update k.tasks i (begin_wait (k.tasks i) object wait_kind d);
}

-- `task_wait_begin`
abbrev pub wait_begin : Kernel → ℕ → ℕ → ℕ → ℕ → Kernel
wait_begin k i object wait_kind timeout =
    wait_begin_until k i object wait_kind (wait_deadline k timeout)

-- What `task_wait_end` stores in the task.
unfoldable pub end_wait : Task → ℕ → Task
end_wait t result = record t {
  state = TaskState.ready;
  wait_result = result;
  wait_object = 0;
  wait_kind = WaitKind.idle;
  wait_start = 0;
  wait_deadline = 0;
  wait_forever = 0;
}

-- `task_wait_end`
abbrev pub wait_end : Kernel → ℕ → ℕ → Kernel
wait_end k i result = record k { tasks = update k.tasks i (end_wait (k.tasks i) result) }

-- How a call of a service ends: it returns, or the calling task is blocked and PendSV pended.
pub data Outcome : Type 0 where
  returned : Kernel → ℕ → Outcome
  blocked : Kernel → Outcome

abbrev pub outcome_kernel : Outcome → Kernel
outcome_kernel (returned k r) = k
outcome_kernel (blocked k) = k

-- The expiry test of `task_block_until_locked` and `tick_tasks`, on unsigned elapsed ticks.
unfoldable pub expired : ℕ → ℕ → ℕ → Bool
expired now start deadline = leb (sub32 deadline start) (sub32 now start)

-- `task_block_until_locked`, up to `arch_yield()`
unfoldable pub block_until_locked : Kernel → ℕ → ℕ → Deadline → Outcome
block_until_locked k object wait_kind d =
    if (d.forever == 0) && expired k.ticks d.start d.tick
    then returned k 0
    else blocked (request_switch (wait_begin_until k k.current object wait_kind d))

-- `task_block_locked`, up to `arch_yield()`
unfoldable pub block_locked : Kernel → ℕ → ℕ → ℕ → Outcome
block_locked k object wait_kind timeout =
    blocked (request_switch (wait_begin k k.current object wait_kind timeout))

-- `task_block`, up to `arch_yield()`
unfoldable pub block : Kernel → ℕ → ℕ → ℕ → Outcome
block k object wait_kind timeout =
    if timeout == 0 then returned k 0 else block_locked k object wait_kind timeout

-- What the three blocking functions return when the task runs again.
abbrev pub wait_result : Kernel → ℕ
wait_result k = (k.tasks k.current).wait_result

-- The waiter test of `task_wake_get_id`
unfoldable pub waits_on : (ℕ → Task) → ℕ → ℕ → ℕ → Bool
waits_on tasks object wait_kind i =
    ((tasks i).state == TaskState.blocked)
    && ((tasks i).wait_object == object)
    && ((tasks i).wait_kind == wait_kind)

-- The two tests of the loop of `task_wake_get_id`, at the index selected so far (`task_count` while
-- there is none) and its priority.
unfoldable pub improves : (ℕ → Task) → ℕ → ℕ → ℕ → ℕ → ℕ → ℕ → Bool
improves tasks task_count object wait_kind index selected priority =
    waits_on tasks object wait_kind index
    && ((selected == task_count) || ltb priority (tasks index).priority)

-- The loop of `task_wake_get_id`, with the rounds left.
unfoldable pub wake_scan : (ℕ → Task) → ℕ → ℕ → ℕ → ℕ → ℕ → ℕ → ℕ → ℕ
wake_scan tasks task_count object wait_kind zero index selected priority = selected
wake_scan tasks task_count object wait_kind (suc rounds) index selected priority =
    let better = improves tasks task_count object wait_kind index selected priority in
    wake_scan tasks task_count object wait_kind rounds (index + 1)
      (if better then index else selected) (if better then (tasks index).priority else priority)

-- The index that `task_wake_get_id` selects, `task_count` if no task waits.
unfoldable pub wake_select : Kernel → ℕ → ℕ → ℕ
wake_select k object wait_kind =
    wake_scan k.tasks k.task_count object wait_kind k.task_count 0 k.task_count 0

-- `task_wake_get_id`
unfoldable pub wake_get_id : Kernel → ℕ → ℕ → Kernel × ℕ
wake_get_id k object wait_kind =
    let selected = wake_select k object wait_kind in
    if selected != k.task_count then (wait_end k selected 1, selected) else (k, u32_max)

-- `task_wake`
unfoldable pub wake : Kernel → ℕ → ℕ → Kernel × ℕ
wake k object wait_kind =
    let (k', id) = wake_get_id k object wait_kind in (k', if id != u32_max then 1 else 0)
