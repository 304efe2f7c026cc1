-- ===== src/System/Ticks.antt =====
-- The system tick of task.c and timer.c keeps the state of the whole kernel.
use just_rt.Common.{
  ℕ, zero, suc, ◌+◌, ◌≡◌, ◌&&◌, ◌==◌, ◌!=◌, inl, inr, if_intro, arith, refl, Option-cases, add32,
}
use just_rt.Kernel.{Task, Kernel}
use just_rt.Wait.{end_wait}
use just_rt.Priority.Unchanged.{restore_priority_chain-OnlyPriorities}
use just_rt.Timer.{due, tick_timer, tick_from, timer_tick}
use just_rt.Tick.{
  sleeps, count_sleep, timed_out, ticked_task, timeout_owner, ended, tick_task, tick_scan, advance,
}
use just_rt.Tick.Check.{advance-KernelOk}
use just_rt.System.Moves.{Calm, Moves, Moves-refl, Calm-Moves, OnlyPriorities-Moves}
use just_rt.System.State.{idle_index, Moved, Moved-trans, SystemOk, SystemOk-Moved}
use just_rt.System.Timers.{served-Moves}

-- A move of the tasks, whatever happens to the rest.
same-Moved :
    (k k' : Kernel)
    → k'.task_count ≡ k.task_count
    → k'.application_task_count ≡ k.application_task_count
    → k'.current ≡ k.current
    → Moves (idle_index k) k.tasks k'.tasks
    → Moved k k'
same-Moved k k' a b c m = record { tasks = m; task_count = a; application = b; current = c }

ticked_task-Calm : (now : ℕ) (t : Task) → Calm t (ticked_task now t)
unfolding ticked_task sleeps count_sleep timed_out end_wait
ticked_task-Calm now t = record {
  keeps = λ v. ground (arith, v);
  region = ground arith;
  starts = λ s. ground (arith, s);
  ready = λ s. ground (arith, s);
  running = λ s. ground (arith, s);
}

tick_task-Moved : (k : Kernel) (i : ℕ) → Moved k (tick_task k i)
unfolding tick_task
tick_task-Moved k i =
    if_intro (Moved k) (timed_out k.ticks (k.tasks i))
      (λ _. elim (Option-cases (timeout_owner (k.tasks i) k.mutexes k.task_count)) [
        | inl e ↦ rw e once
        | inr (owner, e) ↦ rw e (
            Moved-trans once (
              same-Moved (ended k i) _ refl refl refl (
                OnlyPriorities-Moves (idle_index k)
                  (restore_priority_chain-OnlyPriorities (ended k i) owner))))
      ])
      (λ _. once)
  where
    once : Moved k (ended k i)
    once =
        same-Moved k (ended k i) refl refl refl
          (Calm-Moves (idle_index k) k.tasks i _ (ticked_task-Calm k.ticks (k.tasks i)))

tick_scan-Moved : (rounds : ℕ) (k : Kernel) (index : ℕ) → Moved k (tick_scan rounds k index)
unfolding tick_scan
tick_scan-Moved zero k index = same-Moved k k refl refl refl (Moves-refl (idle_index k) k.tasks)
tick_scan-Moved (suc rounds) k index =
    Moved-trans (tick_task-Moved k index) (tick_scan-Moved rounds (tick_task k index) (index + 1))

tick_timer-Moved : (k : Kernel) (p : ℕ) → Moved k (tick_timer k p)
unfolding tick_timer
tick_timer-Moved k p = same-Moved k _ refl refl refl (
    if_intro (Moves (idle_index k) k.tasks)
      (due k.ticks (k.timers p) && ((k.timers p).callback != 0))
      (λ _. served-Moves (idle_index k) k.tasks k.timer_service_task_index)
      (λ _. Moves-refl (idle_index k) k.tasks))

pub tick_from-Moved : (fuel : ℕ) (k : Kernel) (p : ℕ) → Moved k (tick_from fuel k p)
unfolding tick_from
tick_from-Moved zero k p = same-Moved k k refl refl refl (Moves-refl (idle_index k) k.tasks)
tick_from-Moved (suc fuel) k p =
    if_intro (Moved k) (p == 0)
      (λ _. same-Moved k k refl refl refl (Moves-refl (idle_index k) k.tasks))
      (λ _. Moved-trans (tick_timer-Moved k p) (tick_from-Moved fuel (tick_timer k p) _))

pub advance-Moved : (k : Kernel) → Moved k (advance k)
unfolding advance timer_tick
advance-Moved k =
    let next : Kernel = record k { ticks = add32 k.ticks 1 } in
    let timed : Kernel = timer_tick next in
    Moved-trans (same-Moved k next refl refl refl (Moves-refl (idle_index k) k.tasks)) (
      Moved-trans (tick_from-Moved next.timer_nodes next next.timer_list)
        (tick_scan-Moved timed.task_count timed 0))

pub advance-SystemOk : (k : Kernel) → SystemOk k → SystemOk (advance k)
advance-SystemOk k ok =
    let after = advance-KernelOk k ok.checked in
    SystemOk-Moved k (advance k) ok (advance-Moved k) after.mutexes after.timers
