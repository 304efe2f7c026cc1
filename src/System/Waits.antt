-- ===== src/System/Waits.antt =====
-- Waits and wake-ups of task.c as moves of the table of tasks.
use just_rt.Common.{true, ℕ, ◌≤◌, ◌≢◌, ◌==◌, ◌!=◌, ◌&&◌, if_intro}
use just_rt.System.Moves.{Calm-Moves, Yields-Moves, end_wait-Calm, begin_wait-Yields}
use just_rt.Kernel.{Kernel, Counters, request_switch}
use just_rt.Kernel.WaitKind
use just_rt.Wait.{
  Deadline, outcome_kernel, block_until_locked, expired, wake_get_id, wake, wake_select,
}
use just_rt.System.State.{idle_index, Plain, Plain-refl, Plain-trans, tasks-Plain, others-Plain}

pub wake_get_id-Plain :
    (k : Kernel) (object wait_kind : ℕ) → Plain k (wake_get_id k object wait_kind).0
unfolding wake_get_id
wake_get_id-Plain k object wait_kind =
    if_intro (λ (o : Kernel × ℕ). Plain k o.0) (wake_select k object wait_kind != k.task_count)
      (λ _.
        let q = wake_select k object wait_kind in
        tasks-Plain k _ (Calm-Moves (idle_index k) k.tasks q _ (end_wait-Calm (k.tasks q) 1)))
      (λ _. Plain-refl k)

pub wake-Plain : (k : Kernel) (object wait_kind : ℕ) → Plain k (wake k object wait_kind).0
unfolding wake
wake-Plain k object wait_kind = wake_get_id-Plain k object wait_kind

-- The current task blocks, or returns at once.
pub block_until_locked-Plain :
    (k : Kernel) (object wait_kind : ℕ) (d : Deadline)
    → k.current ≢ idle_index k
    → object ≢ 0
    → wait_kind ≢ WaitKind.idle
    → wait_kind ≤ WaitKind.timer_service
    → Plain k (outcome_kernel (block_until_locked k object wait_kind d))
unfolding block_until_locked
block_until_locked-Plain k object wait_kind d hi ho hk hl =
    if_intro (λ o. Plain k (outcome_kernel o)) ((d.forever == 0) && expired k.ticks d.start d.tick)
      (λ _. Plain-refl k)
      (λ _.
        Plain-trans
          (tasks-Plain k _ (
            Yields-Moves (idle_index k) k.tasks k.current _ hi
              (begin_wait-Yields (k.tasks k.current) object wait_kind d ho hk hl)))
          (others-Plain _ true k.bytes k.semaphores k.queues k.event_groups k.counters))

-- The misuse counters, and PendSV.
pub counted-Plain : (k : Kernel) (counters : Counters) → Plain k (record k { counters = counters })
counted-Plain k counters =
    others-Plain k k.switch_pending k.bytes k.semaphores k.queues k.event_groups counters

pub request_switch-Plain : (k : Kernel) → Plain k (request_switch k)
request_switch-Plain k = others-Plain k true k.bytes k.semaphores k.queues k.event_groups k.counters
