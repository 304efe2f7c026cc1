-- ===== src/System/Semaphores.antt =====
-- The calls of semaphores and queues of sync.c keep the state of the whole kernel.
use just_rt.Common.{ℕ, ◌≢◌, not, ◌==◌, ◌!=◌, if_intro, arith}
use just_rt.Kernel.{Kernel}
use just_rt.Kernel.WaitKind
use just_rt.Wait.{Deadline, wake}
use just_rt.Sync.{count_context_misuse}
use just_rt.Sync.Semaphore.{take, give_locked, give, give_from_isr}
use just_rt.System.State.{idle_index, Plain, PlainOutcome, Plain-refl, Plain-trans, others-Plain}
use just_rt.System.Waits.{counted-Plain, request_switch-Plain, wake-Plain, block_until_locked-Plain}

give_locked-Plain : (k : Kernel) (s : ℕ) → Plain k (give_locked k s)
unfolding give_locked
give_locked-Plain k s =
    let woken = (wake k s WaitKind.semaphore).0 in
    if_intro (Plain k) ((wake k s WaitKind.semaphore).1 == 0)
      (λ _. Plain-trans (wake-Plain k s WaitKind.semaphore) (
        others-Plain woken woken.switch_pending woken.bytes _ woken.queues woken.event_groups
          woken.counters))
      (λ _. wake-Plain k s WaitKind.semaphore)

pub give-Plain : (k : Kernel) (s : ℕ) → Plain k (give k s)
unfolding give count_context_misuse
give-Plain k s = if_intro (Plain k) k.in_isr (λ _. counted-Plain k _) (λ _. give_locked-Plain k s)

pub give_from_isr-Plain : (k : Kernel) (s : ℕ) → Plain k (give_from_isr k s)
unfolding give_from_isr count_context_misuse
give_from_isr-Plain k s =
    if_intro (Plain k) (not k.in_isr) (λ _. counted-Plain k _)
      (λ _. Plain-trans (give_locked-Plain k s) (request_switch-Plain (give_locked k s)))

pub take-Plain :
    (k : Kernel) (s timeout : ℕ) (d : Deadline)
    → k.current ≢ idle_index k
    → s ≢ 0
    → PlainOutcome k (take k s timeout d)
unfolding take count_context_misuse
take-Plain k s timeout d hi hs =
    if_intro (PlainOutcome k) k.in_isr (λ _. counted-Plain k _)
      (λ _.
        if_intro (PlainOutcome k) (k.semaphores s != 0)
          (λ _. others-Plain k k.switch_pending k.bytes _ k.queues k.event_groups k.counters)
          (λ _.
            if_intro (PlainOutcome k) (timeout == 0) (λ _. Plain-refl k)
              (λ _.
                block_until_locked-Plain k s WaitKind.semaphore d hi hs (omega arith)
                  (omega arith))))
