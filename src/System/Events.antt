-- ===== src/System/Events.antt =====
-- Event groups of task.c keep the state of the whole kernel.
use just_rt.Common.{
  ℕ, zero, suc, ◌+◌, ◌≢◌, Bool, true, not, ◌&&◌, ◌||◌, ◌==◌, ◌!=◌, if_intro, arith, if◌then◌else◌,
}
use just_rt.Kernel.{Task, Kernel, current_task}
use just_rt.Kernel.WaitKind
use just_rt.Wait.{Outcome, begin_wait, wait_deadline}
use just_rt.Service.EventGroup.{
  create, set_bits, wait_bits, wait_bits_resume, event_condition, satisfied, event_wait, wake_scan,
}
use just_rt.System.Moves.{
  Yields, Moves, Moves-refl, Moves-trans, Calm-Moves, Yields-Moves, end_wait-Calm,
  begin_wait-Yields,
}
use just_rt.System.State.{
  idle_index, Plain, PlainOutcome, Plain-refl, Plain-trans, others-Plain, tasks-Plain,
}
use just_rt.System.Waits.{request_switch-Plain}

wake_scan-Moves :
    (idle group bits rounds : ℕ) (tasks : ℕ → Task) (index : ℕ)
    → Moves idle tasks (wake_scan group bits rounds tasks index)
unfolding wake_scan
wake_scan-Moves idle group bits zero tasks index = Moves-refl idle tasks
wake_scan-Moves idle group bits (suc rounds) tasks index =
    Moves-trans
      (if_intro (Moves idle tasks) (satisfied group bits (tasks index))
        (λ _. Calm-Moves idle tasks index _ (end_wait-Calm (tasks index) 1))
        (λ _. Moves-refl idle tasks))
      (wake_scan-Moves idle group bits rounds _ (index + 1))

pub create-Plain : (k : Kernel) (group : ℕ) → Plain k (create k group)
unfolding create
create-Plain k group = others-Plain k k.switch_pending k.bytes k.semaphores k.queues _ k.counters

-- `event_group_set_bits_common`
pub set_bits-Plain :
    (from_isr : Bool) (k : Kernel) (group bits : ℕ) → Plain k (set_bits from_isr k group bits).0
unfolding set_bits
set_bits-Plain from_isr k group bits =
    if_intro (λ (o : Kernel × ℕ). Plain k o.0)
      ((group == 0) || (if from_isr then not k.in_isr else k.in_isr)) (λ _. Plain-refl k)
      (λ _.
        Plain-trans
          (tasks-Plain k _ (wake_scan-Moves (idle_index k) group _ k.task_count k.tasks 0))
          (others-Plain _ true k.bytes k.semaphores k.queues _ k.counters))

-- `JRT_EventGroupWaitBits`
pub wait_bits-Plain :
    (k : Kernel) (group bits wait_all clear_on_exit timeout : ℕ)
    → k.current ≢ idle_index k
    → PlainOutcome k (wait_bits k group bits wait_all clear_on_exit timeout)
unfolding wait_bits event_wait
wait_bits-Plain k group bits wait_all clear_on_exit timeout hi =
    if_intro P ((group == 0) || (bits == 0) || k.in_isr) (λ _. Plain-refl k)
      (λ valid.
        if_intro P (event_condition (k.event_groups group) bits (if wait_all != 0 then 1 else 0))
          (λ _.
            if_intro (Plain k) (clear_on_exit != 0)
              (λ _. others-Plain k k.switch_pending k.bytes k.semaphores k.queues _ k.counters)
              (λ _. Plain-refl k))
          (λ _.
            if_intro P (timeout == 0) (λ _. Plain-refl k)
              (λ _.
                Plain-trans
                  (tasks-Plain k _ (
                    Yields-Moves (idle_index k) k.tasks k.current _ hi
                      (waiting-Yields (ground (arith, valid)))))
                  (request_switch-Plain _))))
  where
    P : Outcome → Type 0
    P o = PlainOutcome k o

    waiting-Yields :
        group ≢ 0
        → Yields (current_task k) (
            begin_wait
              (event_wait (current_task k) bits wait_all clear_on_exit)
              group
              WaitKind.event_group
              (wait_deadline k timeout))
    waiting-Yields hg =
        let w =
          begin_wait-Yields (event_wait (current_task k) bits wait_all clear_on_exit) group
            WaitKind.event_group (wait_deadline k timeout) hg (omega arith) (omega arith) in
        record {
          keeps = λ v. w.keeps (ground (arith, v));
          region = w.region;
          starts = λ e. w.starts e;
        }

pub wait_bits_resume-Plain :
    (k : Kernel) (group bits : ℕ) → Plain k (wait_bits_resume k group bits).0
unfolding wait_bits_resume
wait_bits_resume-Plain k group bits =
    if_intro (Plain k)
      (event_condition (k.event_groups group) bits (current_task k).event_wait_all
        && ((current_task k).event_clear_on_exit != 0))
      (λ _. others-Plain k k.switch_pending k.bytes k.semaphores k.queues _ k.counters)
      (λ _. Plain-refl k)
