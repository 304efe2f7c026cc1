-- ===== src/System/Switches.antt =====
-- PendSV of task.c keeps the state of the whole kernel, and finds a task to run.
use just_rt.Common.{subst, ℕ, ◌≡◌, ◌==◌, inl, inr, Bool-cases, ==→eq, arith, refl, false}
use just_rt.Mpu.Private.{PrivateSize}
use just_rt.Kernel.{Mpu, Kernel, current_task}
use just_rt.Kernel.TaskState
use just_rt.Sched.{
  Switched, stack_fault, update_stack_usage, leave_current, entered, next_index, pendsv_switch,
  restored, halted, hung,
}
use just_rt.Sched.Switch.{
  PrivateSizes, leave_current-frame, Runnable, leave_current-ready, pendsv_switch-entered,
}
use just_rt.System.State.{
  idle_index, SameMutexes, SameTimers, SystemOk, SameMutexes-MutexesOk, SameTimers-TimersOk,
}

module _ (k : Kernel) (sp : ℕ) (mpu : Mpu) where
  abbrev switched : Kernel
  switched = entered (leave_current k sp) mpu

  switched-mutexes : SameMutexes k switched
  unfolding entered leave_current update_stack_usage
  switched-mutexes = record { mutexes = refl; list = refl; nodes = refl }

  switched-timers : SameTimers k switched
  unfolding entered leave_current update_stack_usage
  switched-timers = record { timers = refl; list = refl; nodes = refl }

  switched-counts :
      (switched.task_count ≡ k.task_count)
      × (switched.application_task_count ≡ k.application_task_count)
  unfolding entered leave_current update_stack_usage
  switched-counts = (refl, refl)

  switched-PrivateSizes : PrivateSizes k → PrivateSizes switched
  unfolding entered leave_current update_stack_usage
  switched-PrivateSizes sizes i h = subst PrivateSize (same i) (sizes i h)
    where
      same : (j : ℕ) → (k.tasks j).private_data_size ≡ (switched.tasks j).private_data_size
      same j = ground arith

  -- A task that could run is ready, or is the one chosen.
  switched-Runnable : (j : ℕ) → Runnable k j → Runnable switched j
  unfolding entered
  switched-Runnable j r =
      let waits = leave_current-ready k sp j r in
      let (count, current) = leave_current-frame k sp in
      let left = leave_current k sp in
      let next = next_index left.tasks left.task_count left.current in
      elim (Bool-cases (j == next)) [
        | inl e ↦ (omega (arith, r.0, count), inr (==→eq j next e, rw e refl))
        | inr e ↦ (omega (arith, r.0, count), inl (rw e waits))
      ]

-- The kernel in the result of PendSV, or `other` if there is none.
abbrev pub kernel_of : Switched → Kernel → Kernel
kernel_of (restored k sp) other = k
kernel_of (halted k) other = k
kernel_of hung other = other

-- With an intact stack, PendSV returns the stack pointer of a task that was ready and is now the
-- only one to run.
pub pendsv_switch-SystemOk :
    (k : Kernel) (sp : ℕ)
    → SystemOk k
    → stack_fault (current_task k) sp ≡ false
    → (k' : Kernel) × (pendsv_switch k sp ≡ restored k' (current_task k').sp)
      × SystemOk k'
      × ((current_task k').state ≡ TaskState.running)
pendsv_switch-SystemOk k sp ok fine =
    let (mpu, e, to) =
      pendsv_switch-entered k sp (idle_index k) fine ok.inside ok.idle ok.only ok.checked.tasks
        ok.regions in
    let (count, application) = switched-counts k sp mpu in
    (
      switched k sp mpu,
      e,
      record {
        size = rw count ok.size;
        internal = rw (count, application) ok.internal;
        inside = to.inside;
        only = to.only;
        idle = rw application (switched-Runnable k sp mpu (idle_index k) ok.idle);
        regions = switched-PrivateSizes k sp mpu ok.regions;
        checked = record {
          tasks = to.checked;
          mutexes = SameMutexes-MutexesOk k _ (switched-mutexes k sp mpu) count ok.checked.mutexes;
          timers = SameTimers-TimersOk k _ (switched-timers k sp mpu) ok.checked.timers;
        };
      },
      to.running,
    )
