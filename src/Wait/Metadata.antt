-- ===== src/Wait/Metadata.antt =====
-- The part of `kernel_check_invariants_locked` of task.c that reads one task, as a predicate, and
-- that the transitions of task.c keep it.
use just_rt.Common.{ℕ, ◌≤◌, ◌≡◌, ◌≢◌, arith, update, update-All}
use just_rt.Kernel.{Task, Kernel}
use just_rt.Kernel.TaskState
use just_rt.Kernel.WaitKind
use just_rt.Wait.{Deadline, begin_wait, end_wait, wait_begin_until, wait_end}

-- A blocked task has a wait object and a wait kind, and any other task has no wait metadata.
pub record TaskOk (t : Task) : Type 0 where
  pub known_state : t.state ≤ TaskState.suspended
  pub has_object : t.state ≡ TaskState.blocked → t.wait_object ≢ 0
  pub has_kind : t.state ≡ TaskState.blocked → t.wait_kind ≢ WaitKind.idle
  pub known_kind : t.state ≡ TaskState.blocked → t.wait_kind ≤ WaitKind.timer_service
  pub no_object : t.state ≢ TaskState.blocked → t.wait_object ≡ 0
  pub no_kind : t.state ≢ TaskState.blocked → t.wait_kind ≡ WaitKind.idle
  pub no_start : t.state ≢ TaskState.blocked → t.wait_start ≡ 0
  pub no_deadline : t.state ≢ TaskState.blocked → t.wait_deadline ≡ 0
  pub no_forever : t.state ≢ TaskState.blocked → t.wait_forever ≡ 0

abbrev pub TasksOk : (ℕ → Task) → Type 0
TasksOk tasks = (i : ℕ) → TaskOk (tasks i)

pub begin_wait-TaskOk :
    (t : Task) (object wait_kind : ℕ) (d : Deadline)
    → object ≢ 0
    → wait_kind ≢ WaitKind.idle
    → wait_kind ≤ WaitKind.timer_service
    → TaskOk (begin_wait t object wait_kind d)
unfolding begin_wait
begin_wait-TaskOk t object wait_kind d ho hk hl = ground arith

pub end_wait-TaskOk : (t : Task) (result : ℕ) → TaskOk (end_wait t result)
unfolding end_wait
end_wait-TaskOk t result = ground arith

pub TasksOk-update :
    (tasks : ℕ → Task) (i : ℕ) (t : Task) → TasksOk tasks → TaskOk t → TasksOk (update tasks i t)
TasksOk-update tasks i t = update-All TaskOk tasks i t

pub wait_begin_until-TasksOk :
    (k : Kernel) (i object wait_kind : ℕ) (d : Deadline)
    → TasksOk k.tasks
    → object ≢ 0
    → wait_kind ≢ WaitKind.idle
    → wait_kind ≤ WaitKind.timer_service
    → TasksOk (wait_begin_until k i object wait_kind d).tasks
wait_begin_until-TasksOk k i object wait_kind d v ho hk hl =
    TasksOk-update k.tasks i _ v (begin_wait-TaskOk (k.tasks i) object wait_kind d ho hk hl)

pub wait_end-TasksOk :
    (k : Kernel) (i result : ℕ) → TasksOk k.tasks → TasksOk (wait_end k i result).tasks
wait_end-TasksOk k i result v = TasksOk-update k.tasks i _ v (end_wait-TaskOk (k.tasks i) result)
