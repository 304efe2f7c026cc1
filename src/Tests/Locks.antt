-- ===== src/Tests/Locks.antt =====
-- Semaphores and mutexes of sync.c at concrete kernels.
use just_rt.Common.{ℕ, zero, suc, ◌≡◌, ◌≢◌, ◌⊎◌, refl, arith, update, some, none, [], ◌∷◌}
use just_rt.Kernel.WaitKind
use just_rt.Wait.{Deadline, returned, expired, outcome_kernel, wait_end, waits_on, wait_deadline}
use just_rt.Wait.Select.{IsBest, NoWaiter}
use just_rt.Sync.Semaphore
use just_rt.Sync.Semaphore.Handover.{
  NoIdleSemaphore, give_locked_lem, take-NoIdleSemaphore, give-NoIdleSemaphore,
}
use just_rt.Sync.Mutex
use just_rt.Sync.Mutex.Ownership.{HandedTo, Freed, release_lem}
use just_rt.Sync.Mutex.Idle.{NoIdleMutex, lock-NoIdleMutex, unlock-NoIdleMutex}
use just_rt.Sync.Mutex.Registry.{Registered}
use just_rt.Intrusive.{cycle_from}
use just_rt.Intrusive.Cycle.{follow, cycle_from_sound, cycle_from_complete}
use just_rt.Kernel.{Kernel}
use just_rt.Kernel.TaskState
use just_rt.Priority.{inherit_priority, waits_for}
use just_rt.Priority.Effective.{IsEffective}
use just_rt.Sync.Mutex.Late.{lock-raised}
use just_rt.Tests.Fixture.{demo, blank_task, free_mutex, held_mutex}

abbrev soon : Deadline
soon = wait_deadline demo 10

demo-NoIdleSemaphore : NoIdleSemaphore demo
demo-NoIdleSemaphore s a = absurd (a refl)

demo-NoIdleMutex : NoIdleMutex demo
unfolding waits_on
demo-NoIdleMutex m z j l = ground arith

give_locked_lem_example :
    ((i : ℕ) × IsBest demo.tasks 200 WaitKind.semaphore 4 i
      × (Semaphore.give_locked demo 200 ≡ wait_end demo i 1))
    ⊎ (NoWaiter demo.tasks 200 WaitKind.semaphore 4
        × (Semaphore.give_locked demo 200 ≡ Semaphore.set_available demo 200 1))
give_locked_lem_example = give_locked_lem demo 200 (omega arith)

take-NoIdleSemaphore_example : NoIdleSemaphore (outcome_kernel (Semaphore.take demo 200 10 soon))
take-NoIdleSemaphore_example = take-NoIdleSemaphore demo 200 10 soon demo-NoIdleSemaphore

give-NoIdleSemaphore_example :
    NoIdleSemaphore (Semaphore.give demo 200) × NoIdleSemaphore (Semaphore.give_from_isr demo 200)
give-NoIdleSemaphore_example = give-NoIdleSemaphore demo 200 (omega arith) demo-NoIdleSemaphore

release_lem_example :
    ((s : ℕ) × HandedTo demo (Mutex.release demo 100) 100 s)
    ⊎ Freed demo (Mutex.release demo 100) 100
release_lem_example = release_lem demo 100 (omega arith)

lock-NoIdleMutex_example : NoIdleMutex (outcome_kernel (Mutex.lock demo 100 10 soon))
lock-NoIdleMutex_example = lock-NoIdleMutex demo 100 10 soon demo-NoIdleMutex

unlock-NoIdleMutex_example : NoIdleMutex (Mutex.unlock demo 100).0
unlock-NoIdleMutex_example = unlock-NoIdleMutex demo 100 (omega arith) demo-NoIdleMutex

demo-Registered : Registered demo (100 ∷ [])
demo-Registered = omega arith

-- 1 links to 2, 2 to 3, and 3 back to 2, or to null.
abbrev ring_links : ℕ → ℕ
ring_links = update (update (update (λ _. 2) 1 2) 2 3) 3 2

abbrev list_links : ℕ → ℕ
list_links = update (update (update (λ _. 0) 1 2) 2 3) 3 0

cycle_from_sound_example : cycle_from list_links 4 1 1 ≡ some none
cycle_from_sound_example =
    cycle_from_sound list_links 1 4 (1 ∷ 2 ∷ 3 ∷ []) (omega arith) (omega arith)

ring_nonnull : (i p : ℕ) → p ≢ 0 → follow ring_links i p ≢ 0
ring_nonnull zero p h = h
ring_nonnull (suc i) p h = ring_nonnull i (ring_links p) (ground arith)

cycle_from_complete_example : (p : ℕ) × (cycle_from ring_links 4 1 1 ≡ some (some p))
cycle_from_complete_example =
    cycle_from_complete ring_links 1 1 2 4 (λ i. ring_nonnull i 1 (omega arith)) refl (omega arith)
      (omega arith)

-- Task 3, of priority 4, finds the mutex at 500 held by task 2, and its one tick is over.
abbrev late_demo : Kernel
late_demo = record demo {
  tasks =
      update (λ _. blank_task) 3
        (record blank_task { state = TaskState.running; priority = 4; base_priority = 4 });
  current = 3;
  ticks = 8;
  mutexes = update (λ _. free_mutex) 500 (record held_mutex { owner = 2 });
}

lock-raised_example :
    let k' = inherit_priority late_demo 2 4 in
    (Mutex.lock late_demo 500 1 (wait_deadline demo 1) ≡ returned k' 0)
    × ¬ IsEffective k'.tasks late_demo.mutexes 2 0 4 (k'.tasks 2).priority
unfolding expired waits_for
lock-raised_example =
    lock-raised late_demo 500 1 (wait_deadline demo 1) refl (omega arith) (omega arith)
      (omega arith) (omega arith) refl refl (λ j. ground arith) (omega arith)
