-- ===== src/Tick/Check.antt =====
-- The checks of `kernel_check_invariants_locked` of task.c after a tick.
use just_rt.Common.{
  ℕ, zero, suc, ◌+◌, ◌≡◌, inl, inr, refl, arith, ◌==◌, ◌!=◌, ◌&&◌, if_intro, Option-cases, none,
  add32, List,
}
use just_rt.Kernel.{Task, Kernel, Counters}
use just_rt.Kernel.Objects
use just_rt.Wait.{end_wait}
use just_rt.Wait.Metadata.{TaskOk, TasksOk, TasksOk-update, end_wait-TaskOk}
use just_rt.Priority.Unchanged.{TasksOk-OnlyPriorities, restore_priority_chain-OnlyPriorities}
use just_rt.Sync.Mutex.Registry.{AllOk, sync_invariant_check-ok}
use just_rt.Sync.Mutex.Registry
use just_rt.Timer.{
  served, service_waits, fire, due, tick_timer, tick_from, timer_tick, periodic_fault,
}
use just_rt.Timer.Registry.{PeriodOk, timer_invariant_check-ok}
use just_rt.Timer.Expire.{fire-next}
use just_rt.Timer.Calls.{TimersOk, set_timer-TimersOk}
use just_rt.Tick.{
  sleeps, count_sleep, timed_out, ticked_task, timeout_owner, ended, tick_task, tick_scan, advance,
  continued, task_code, scan_tasks, checked, check_invariants, tick_tasks,
}

-- What `kernel_check_invariants_locked` relies on: tasks with the wait metadata of their states, a
-- null-terminated list of mutexes in accepted states, and one of timers that have a period just if
-- they are periodic.
pub record KernelOk (k : Kernel) : Type 0 where
  pub tasks : TasksOk k.tasks
  pub mutexes : (xs : List ℕ) × Registry.Registered k xs × AllOk k.task_count k.mutexes xs
  pub timers : TimersOk k

-- The lists do not depend on the tasks, the counters and the tick count.
KernelOk-tasks :
    (k : Kernel) (tasks : ℕ → Task) (counters : Counters) (ticks : ℕ)
    → TasksOk tasks
    → KernelOk k
    → KernelOk (record k { tasks = tasks; counters = counters; ticks = ticks })
KernelOk-tasks k tasks counters ticks new ok =
    let (xs, r, all) = ok.mutexes in
    let ((ys, s), periods) = ok.timers in
    record {
      tasks = new;
      mutexes = (xs, record { chain = r.chain; counted = r.counted }, all);
      timers = ((ys, record { chain = s.chain; counted = s.counted }), periods);
    }

ticked_task-TaskOk : (now : ℕ) (t : Task) → TaskOk t → TaskOk (ticked_task now t)
unfolding ticked_task sleeps count_sleep timed_out end_wait
ticked_task-TaskOk now t v = ground (arith, v)

tick_task-KernelOk : (k : Kernel) (i : ℕ) → KernelOk k → KernelOk (tick_task k i)
unfolding tick_task
tick_task-KernelOk k i ok =
    if_intro KernelOk (timed_out k.ticks (k.tasks i))
      (λ _. elim (Option-cases (timeout_owner (k.tasks i) k.mutexes k.task_count)) [
        | inl e ↦ rw e stepped
        | inr (owner, e) ↦ rw e (
            KernelOk-tasks (ended k i) _ (ended k i).counters k.ticks
              (TasksOk-OnlyPriorities (restore_priority_chain-OnlyPriorities (ended k i) owner)
                stepped.tasks)
              stepped)
      ])
      (λ _. stepped)
  where
    stepped : KernelOk (ended k i)
    stepped =
        KernelOk-tasks k _ _ k.ticks
          (TasksOk-update k.tasks i _ ok.tasks
            (ticked_task-TaskOk k.ticks (k.tasks i) (ok.tasks i)))
          ok

tick_scan-KernelOk :
    (rounds : ℕ) (k : Kernel) (index : ℕ) → KernelOk k → KernelOk (tick_scan rounds k index)
unfolding tick_scan
tick_scan-KernelOk zero k index ok = ok
tick_scan-KernelOk (suc rounds) k index ok =
    tick_scan-KernelOk rounds (tick_task k index) (index + 1) (tick_task-KernelOk k index ok)

served-TasksOk : (tasks : ℕ → Task) (i : ℕ) → TasksOk tasks → TasksOk (served tasks i)
unfolding served
served-TasksOk tasks i v =
    if_intro TasksOk (service_waits (tasks i))
      (λ _. TasksOk-update tasks i _ v (end_wait-TaskOk (tasks i) 1)) (λ _. v)

fire-PeriodOk : (now : ℕ) (t : Objects.Timer) → PeriodOk t → PeriodOk (fire now t)
unfolding fire periodic_fault
fire-PeriodOk now t v = ground (arith, v)

tick_timer-KernelOk : (k : Kernel) (p : ℕ) → KernelOk k → KernelOk (tick_timer k p)
unfolding tick_timer
tick_timer-KernelOk k p ok =
    let t = k.timers p in
    let (xs, r, all) = ok.mutexes in
    let ((ys, s), periods) =
      set_timer-TimersOk k p (fire k.ticks t) (fire-next k.ticks t)
        (fire-PeriodOk k.ticks t (ok.timers.1 p)) ok.timers in
    record {
      tasks =
          if_intro TasksOk (due k.ticks t && (t.callback != 0))
            (λ _. served-TasksOk k.tasks k.timer_service_task_index ok.tasks) (λ _. ok.tasks);
      mutexes = (xs, record { chain = r.chain; counted = r.counted }, all);
      timers = ((ys, record { chain = s.chain; counted = s.counted }), periods);
    }

tick_from-KernelOk : (fuel : ℕ) (k : Kernel) (p : ℕ) → KernelOk k → KernelOk (tick_from fuel k p)
unfolding tick_from
tick_from-KernelOk zero k p ok = ok
tick_from-KernelOk (suc fuel) k p ok =
    if_intro KernelOk (p == 0) (λ _. ok)
      (λ _. tick_from-KernelOk fuel (tick_timer k p) _ (tick_timer-KernelOk k p ok))

pub advance-KernelOk : (k : Kernel) → KernelOk k → KernelOk (advance k)
unfolding advance timer_tick
advance-KernelOk k ok =
    let next : Kernel = record k { ticks = add32 k.ticks 1 } in
    let timed : Kernel = timer_tick next in
    tick_scan-KernelOk timed.task_count timed 0 (
      tick_from-KernelOk next.timer_nodes next next.timer_list
        (KernelOk-tasks k k.tasks k.counters next.ticks ok.tasks ok))

task_code-TaskOk : (t : Task) → TaskOk t → task_code t ≡ 0
unfolding task_code
task_code-TaskOk t v = ground (arith, v)

scan_tasks-TasksOk :
    (tasks : ℕ → Task) (rounds index : ℕ) → TasksOk tasks → scan_tasks tasks rounds index ≡ none
unfolding scan_tasks
scan_tasks-TasksOk tasks zero index v = refl
scan_tasks-TasksOk tasks (suc rounds) index v =
    rw (task_code-TaskOk (tasks index) (v index)) (scan_tasks-TasksOk tasks rounds (index + 1) v)

pub check_invariants-KernelOk :
    (address : ℕ → ℕ) (k : Kernel) → KernelOk k → check_invariants address k ≡ continued k
unfolding check_invariants checked
check_invariants-KernelOk address k ok =
    let (xs, r, all) = ok.mutexes in
    let ((ys, s), periods) = ok.timers in
    rw (
      check_invariants,
      scan_tasks-TasksOk k.tasks k.task_count 0 ok.tasks,
      sync_invariant_check-ok k k.task_count xs r all,
      timer_invariant_check-ok k ys s periods,
    )

-- A tick ends and does not halt the processor, if every task has the wait metadata of its state,
-- the mutex list is null-terminated and its mutexes are in accepted states, and the timer list is
-- null-terminated and a timer has a period just if it is periodic; all this then holds again, so
-- the next tick does the same.
pub tick_tasks-KernelOk :
    (address : ℕ → ℕ) (k : Kernel)
    → KernelOk k
    → (k' : Kernel) × (tick_tasks address k ≡ continued k') × KernelOk k'
unfolding tick_tasks
tick_tasks-KernelOk address k ok =
    let next = advance-KernelOk k ok in
    (advance k, check_invariants-KernelOk address (advance k) next, next)
