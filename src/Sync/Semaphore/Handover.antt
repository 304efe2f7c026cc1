-- ===== src/Sync/Semaphore/Handover.antt =====
-- A give of sync.c hands the semaphore to a waiter or leaves it available, never both.
use just_rt.Common.{
  ℕ, ◌<◌, ◌≡◌, ◌≢◌, ◌⊎◌, inl, inr, arith, ◌==◌, ◌!=◌, Bool-cases, ==→eq, not, if_intro,
}
use just_rt.Kernel.{Kernel}
use just_rt.Kernel.WaitKind
use just_rt.Wait.{Deadline, Outcome, outcome_kernel, wait_end, block_until_locked}
use just_rt.Wait.Select.{IsBest, NoWaiter}
use just_rt.Wait.Wake.{wake_lem}
use just_rt.Wait.Waiters.{wait_end-NoWaiter, wait_begin_until-NoWaiter, block_until_locked_lem}
use just_rt.Sync.{count_context_misuse}
use just_rt.Sync.Semaphore.{set_available, take, give_locked, give, give_from_isr}

-- No task waits for a semaphore that is available.
abbrev pub NoIdleSemaphore : Kernel → Type 0
NoIdleSemaphore k =
    (s : ℕ) → k.semaphores s ≢ 0 → NoWaiter k.tasks s WaitKind.semaphore k.task_count

-- A give either ends the wait of the best waiter with result 1 and leaves every semaphore as it
-- is, or, if nobody waits, makes the semaphore available and leaves every task as it is.
pub give_locked_lem :
    (k : Kernel) (s : ℕ)
    → k.task_count < 4294967296
    → ((i : ℕ) × IsBest k.tasks s WaitKind.semaphore k.task_count i
        × (give_locked k s ≡ wait_end k i 1))
      ⊎ (NoWaiter k.tasks s WaitKind.semaphore k.task_count
          × (give_locked k s ≡ set_available k s 1))
unfolding give_locked
give_locked_lem k s h = elim (wake_lem k s WaitKind.semaphore h) [
  | inl (e, none) ↦ inr (none, rw e)
  | inr (i, e, best) ↦ inl (i, best, rw e)
]

set_available-NoIdleSemaphore :
    (k : Kernel) (s : ℕ)
    → NoWaiter k.tasks s WaitKind.semaphore k.task_count
    → NoIdleSemaphore k
    → NoIdleSemaphore (set_available k s 1)
set_available-NoIdleSemaphore k s none v p h j l = elim (Bool-cases (p == s)) [
  | inl e ↦ rw (==→eq p s e) (none j l)
  | inr e ↦ v p (λ z. h (rw e z)) j l
]

give_locked-NoIdleSemaphore :
    (k : Kernel) (s : ℕ)
    → k.task_count < 4294967296
    → NoIdleSemaphore k
    → NoIdleSemaphore (give_locked k s)
give_locked-NoIdleSemaphore k s h v = elim (give_locked_lem k s h) [
  | inl (i, best, e) ↦ rw e (λ p a. wait_end-NoWaiter k i 1 p WaitKind.semaphore (v p a))
  | inr (none, e) ↦ rw e (set_available-NoIdleSemaphore k s none v)
]

block-NoIdleSemaphore :
    (k : Kernel) (s : ℕ) (d : Deadline)
    → k.semaphores s ≡ 0
    → NoIdleSemaphore k
    → NoIdleSemaphore (outcome_kernel (block_until_locked k s WaitKind.semaphore d))
block-NoIdleSemaphore k s d z v = elim (block_until_locked_lem k s WaitKind.semaphore d) [
  | inl e ↦ rw e v
  | inr e ↦ rw e (λ p a.
      wait_begin_until-NoWaiter k k.current s WaitKind.semaphore d p WaitKind.semaphore
        (inl (λ q. a (rw (← q) z))) (v p a))
]

-- `JRT_SemaphoreTake`, on every branch, leaves no task waiting for an available semaphore if there
-- was none.
pub take-NoIdleSemaphore :
    (k : Kernel) (s timeout : ℕ) (d : Deadline)
    → NoIdleSemaphore k
    → NoIdleSemaphore (outcome_kernel (take k s timeout d))
unfolding take count_context_misuse
take-NoIdleSemaphore k s timeout d v =
    if_intro P k.in_isr (λ _. v)
      (λ _.
        if_intro P (k.semaphores s != 0) (λ _ p a j l. v p (ground arith) j l)
          (λ z.
            if_intro P (timeout == 0) (λ _. v) (λ _. block-NoIdleSemaphore k s d (ground arith) v)))
  where
    P : Outcome → Type 0
    P o = NoIdleSemaphore (outcome_kernel o)

-- `JRT_SemaphoreGive` and `JRT_SemaphoreGiveFromISR`, on every branch, leave no task waiting for
-- an available semaphore if there was none.
pub give-NoIdleSemaphore :
    (k : Kernel) (s : ℕ)
    → k.task_count < 4294967296
    → NoIdleSemaphore k
    → NoIdleSemaphore (give k s) × NoIdleSemaphore (give_from_isr k s)
unfolding give give_from_isr count_context_misuse
give-NoIdleSemaphore k s h v = (
  if_intro NoIdleSemaphore k.in_isr (λ _. v) (λ _. give_locked-NoIdleSemaphore k s h v),
  if_intro NoIdleSemaphore (not k.in_isr) (λ _. v) (λ _. give_locked-NoIdleSemaphore k s h v),
)
