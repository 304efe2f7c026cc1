-- ===== src/System/Timers.antt =====
-- The calls of timer.c keep the state of the whole kernel.
use just_rt.Common.{
  sub32, update, Bool, ℕ, ◌≢◌, inl, inr, ◌&&◌, ◌||◌, ◌==◌, ◌!=◌, if_intro, arith, refl,
  Option-cases,
}
use just_rt.Kernel.{Task, Kernel}
use just_rt.Kernel.Objects
use just_rt.Kernel.WaitKind
use just_rt.Timer.{
  set_timer, link, is_linked, service_waits, served, timer_service_wait_object, create,
  set_callback, start, start_periodic, restart, stop, take_expirations, claim_from, service_claim,
  periodic_fault,
}
use just_rt.Timer.Calls.{
  Call, create_static, register, start_once, start_repeating, start_again, cancel, collect, perform,
  perform-TimersOk, set_timer-TimersOk,
}
use just_rt.System.Moves.{
  Moves, Moves-refl, Calm-Moves, Yields-Moves, end_wait-Calm, begin_wait-Yields,
}
use just_rt.System.State.{
  idle_index, Moved, SameMutexes, SystemOk, SystemOk-Moved, SystemOk-Plain, SameMutexes-MutexesOk,
  Plain-trans, tasks-Plain,
}
use just_rt.System.Waits.{request_switch-Plain}

-- A step that moves the tasks and leaves the mutexes alone.
pub record Timed (k k' : Kernel) : Type 0 where
  pub moved : Moved k k'
  pub mutexes : SameMutexes k k'

pub served-Moves : (idle : ℕ) (tasks : ℕ → Task) (i : ℕ) → Moves idle tasks (served tasks i)
unfolding served
served-Moves idle tasks i =
    if_intro (Moves idle tasks) (service_waits (tasks i))
      (λ _. Calm-Moves idle tasks i _ (end_wait-Calm (tasks i) 1)) (λ _. Moves-refl idle tasks)

-- A write of the timers, of their list, and of the tasks.
timers-Timed :
    (k : Kernel) (tasks : ℕ → Task) (timers : ℕ → Objects.Timer) (list nodes : ℕ) (pending : Bool)
    → Moves (idle_index k) k.tasks tasks
    → Timed k (record k {
      tasks = tasks;
      timers = timers;
      timer_list = list;
      timer_nodes = nodes;
      switch_pending = pending;
    })
timers-Timed k tasks timers list nodes pending m = record {
  moved = record { tasks = m; task_count = refl; application = refl; current = refl };
  mutexes = record { mutexes = refl; list = refl; nodes = refl };
}

module _ (k : Kernel) where
  only_timers :
      (timers : ℕ → Objects.Timer) (list nodes : ℕ)
      → Timed k (record k { timers = timers; timer_list = list; timer_nodes = nodes })
  only_timers timers list nodes =
      timers-Timed k k.tasks timers list nodes k.switch_pending (Moves-refl (idle_index k) k.tasks)

  same-Timed : Timed k k
  same-Timed = only_timers k.timers k.timer_list k.timer_nodes

  linked-Timed : (p : ℕ) (v : Objects.Timer) → Timed k (set_timer (link k p) p v)
  unfolding link
  linked-Timed p v =
      if_intro (λ (after : Kernel). Timed k (set_timer after p v)) (is_linked k p)
        (λ _. only_timers _ _ _) (λ _. only_timers _ _ _)

  perform-Timed : (c : Call) → Timed k (perform k c)
  unfolding perform create link set_callback start start_periodic restart stop take_expirations
  perform-Timed (create_static p) =
      if_intro (Timed k) (p == 0) (λ _. same-Timed)
        (λ _. if_intro (Timed k) (is_linked _ p) (λ _. only_timers _ _ _) (λ _. only_timers _ _ _))
  perform-Timed (register p callback argument) =
      if_intro (Timed k) (p == 0) (λ _. same-Timed)
        (λ _.
          if_intro (Timed k) ((callback != 0) && ((k.timers p).expirations != 0))
            (λ _.
              timers-Timed k _ _ _ _ _
                (served-Moves (idle_index k) k.tasks k.timer_service_task_index))
            (λ _. only_timers _ _ _))
  perform-Timed (start_once p delay) =
      if_intro (Timed k) (p == 0) (λ _. same-Timed) (λ _. linked-Timed p _)
  perform-Timed (start_repeating p period) =
      if_intro (Timed k) ((p == 0) || (period == 0)) (λ _. same-Timed) (λ _. linked-Timed p _)
  perform-Timed (start_again p) =
      if_intro (Timed k) ((p == 0) || ((k.timers p).reload_ticks == 0)) (λ _. same-Timed)
        (λ _. linked-Timed p _)
  perform-Timed (cancel p) = if_intro (Timed k) (p == 0) (λ _. same-Timed) (λ _. only_timers _ _ _)
  perform-Timed (collect p) =
      if_intro (λ (o : Kernel × ℕ). Timed k o.0) (p == 0) (λ _. same-Timed) (λ _. only_timers _ _ _)

pub perform-SystemOk : (k : Kernel) (c : Call) → SystemOk k → SystemOk (perform k c)
perform-SystemOk k c ok =
    let t = perform-Timed k c in
    SystemOk-Moved k (perform k c) ok t.moved
      (SameMutexes-MutexesOk k _ t.mutexes t.moved.task_count ok.checked.mutexes)
      (perform-TimersOk k c ok.checked.timers)

-- `kernel_timer_service_claim`
pub service_claim-SystemOk :
    (k : Kernel) → SystemOk k → k.current ≢ idle_index k → SystemOk (service_claim k).0
unfolding service_claim periodic_fault
service_claim-SystemOk k ok hi =
    elim (Option-cases (claim_from k.timers k.timer_nodes k.timer_list)) [
      | inl e ↦
          rw (service_claim, e)
            (SystemOk-Plain k _ ok (
              Plain-trans
                (tasks-Plain k _ (
                  Yields-Moves (idle_index k) k.tasks k.current _ hi (
                    begin_wait-Yields (k.tasks k.current) timer_service_wait_object
                      WaitKind.timer_service _ (omega arith) (omega arith) (omega arith))))
                (request_switch-Plain _)))
      | inr (p, e) ↦
          rw (service_claim, e)
            (let claimed = record (k.timers p) { expirations = sub32 (k.timers p).expirations 1 } in
              let t = only_timers k (update k.timers p claimed) k.timer_list k.timer_nodes in
              SystemOk-Moved k _ ok t.moved
                (SameMutexes-MutexesOk k _ t.mutexes refl ok.checked.mutexes)
                (set_timer-TimersOk k p claimed refl (ok.checked.timers.1 p) ok.checked.timers))
    ]
