-- ===== src/Wait/Waiters.antt =====
-- Who waits on what after the transitions of task.c: `waits_on` of a task whose wait begins, ends,
-- or is left alone.
use just_rt.Common.{ℕ, ◌≡◌, ◌≢◌, ◌⊎◌, false, arith, ◌==◌, ◌&&◌, if◌then◌else◌, update}
use just_rt.Kernel.{Task, Kernel, request_switch}
use just_rt.Wait.{
  Deadline, returned, blocked, waits_on, begin_wait, end_wait, wait_begin_until, wait_end,
  block_until_locked,
}
use just_rt.Wait.Select.{NoWaiter}

pub waits_on-begin_wait :
    (tasks : ℕ → Task) (i o w : ℕ) (d : Deadline) (object wait_kind j : ℕ)
    → waits_on (update tasks i (begin_wait (tasks i) o w d)) object wait_kind j
      ≡ (if j == i then (o == object) && (w == wait_kind) else waits_on tasks object wait_kind j)
unfolding waits_on begin_wait
waits_on-begin_wait tasks i o w d object wait_kind j = ground arith

pub waits_on-end_wait :
    (tasks : ℕ → Task) (i result object wait_kind j : ℕ)
    → waits_on (update tasks i (end_wait (tasks i) result)) object wait_kind j
      ≡ (if j == i then false else waits_on tasks object wait_kind j)
unfolding waits_on end_wait
waits_on-end_wait tasks i result object wait_kind j = ground arith

-- Ending a wait makes no waiter.
pub wait_end-NoWaiter :
    (k : Kernel) (i result object wait_kind : ℕ)
    → NoWaiter k.tasks object wait_kind k.task_count
    → NoWaiter (wait_end k i result).tasks object wait_kind k.task_count
wait_end-NoWaiter k i result object wait_kind none j h =
    ground (arith, waits_on-end_wait k.tasks i result object wait_kind j, none j h)

-- A wait that begins on another object, or of another kind, makes no waiter here.
pub wait_begin_until-NoWaiter :
    (k : Kernel) (i o w : ℕ) (d : Deadline) (object wait_kind : ℕ)
    → (o ≢ object) ⊎ (w ≢ wait_kind)
    → NoWaiter k.tasks object wait_kind k.task_count
    → NoWaiter (wait_begin_until k i o w d).tasks object wait_kind k.task_count
wait_begin_until-NoWaiter k i o w d object wait_kind other none j h =
    ground (arith, waits_on-begin_wait k.tasks i o w d object wait_kind j, none j h)

-- How a call that may block ends: it returns 0 and changes nothing, if the deadline has passed, or
-- the current task waits and PendSV is pended.
pub block_until_locked_lem :
    (k : Kernel) (o w : ℕ) (d : Deadline)
    → (block_until_locked k o w d ≡ returned k 0)
      ⊎ (block_until_locked k o w d ≡ blocked (request_switch (wait_begin_until k k.current o w d)))
unfolding block_until_locked
block_until_locked_lem k o w d = ground arith
