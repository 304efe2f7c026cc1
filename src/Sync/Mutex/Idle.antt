-- ===== src/Sync/Mutex/Idle.antt =====
-- No mutex of sync.c is free while a task waits for it.
use just_rt.Common.{
  ℕ, ◌<◌, ◌≡◌, ◌≢◌, ◌⊎◌, inl, inr, sym, subst, arith, ◌==◌, ◌!=◌, ◌||◌, Bool-cases, ==→eq, if_intro,
  u32_max, ltb,
}
use just_rt.Kernel.{Task, Kernel, current_task}
use just_rt.Kernel.Objects
use just_rt.Kernel.WaitKind
use just_rt.Wait.{Deadline, Outcome, outcome_kernel, wait_end, block_until_locked}
use just_rt.Wait.Select.{NoWaiter}
use just_rt.Wait.Waiters.{wait_end-NoWaiter, wait_begin_until-NoWaiter, block_until_locked_lem}
use just_rt.Priority.{inherit_priority}
use just_rt.Priority.Unchanged.{
  OnlyPriorities, inherit_priority-OnlyPriorities, NoWaiter-OnlyPriorities,
}
use just_rt.Sync.{count_context_misuse}
use just_rt.Sync.Mutex.{set_mutex, lock, release, unlock}
use just_rt.Sync.Mutex.Ownership.{HandedTo, Freed, release_lem}

-- No task waits for a mutex that is free.
abbrev pub NoIdleMutex : Kernel → Type 0
NoIdleMutex k = (m : ℕ) → (k.mutexes m).locked ≡ 0 → NoWaiter k.tasks m WaitKind.mutex k.task_count

-- Writing a mutex that stays or becomes locked, or for which nobody waits.
set_mutex-NoIdleMutex :
    (k : Kernel) (m : ℕ) (v : Objects.Mutex)
    → (v.locked ≢ 0) ⊎ NoWaiter k.tasks m WaitKind.mutex k.task_count
    → NoIdleMutex k
    → NoIdleMutex (set_mutex k m v)
set_mutex-NoIdleMutex k m v (inl busy) none p z = elim (Bool-cases (p == m)) [
  | inl e ↦ absurd (busy (rw e at z))
  | inr e ↦ none p (rw e at z)
]
set_mutex-NoIdleMutex k m v (inr quiet) none p z = elim (Bool-cases (p == m)) [
  | inl e ↦ rw (==→eq p m e) quiet
  | inr e ↦ none p (rw e at z)
]

OnlyPriorities-NoIdleMutex :
    (k : Kernel) (tasks : ℕ → Task)
    → OnlyPriorities k.tasks tasks
    → NoIdleMutex k
    → NoIdleMutex (record k { tasks = tasks })
OnlyPriorities-NoIdleMutex k tasks u idle m z =
    NoWaiter-OnlyPriorities u m WaitKind.mutex k.task_count (idle m z)

wait_end-NoIdleMutex :
    (k : Kernel) (i result : ℕ) → NoIdleMutex k → NoIdleMutex (wait_end k i result)
wait_end-NoIdleMutex k i result idle m z = wait_end-NoWaiter k i result m WaitKind.mutex (idle m z)

block-NoIdleMutex :
    (k : Kernel) (m : ℕ) (d : Deadline)
    → (k.mutexes m).locked ≢ 0
    → NoIdleMutex k
    → NoIdleMutex (outcome_kernel (block_until_locked k m WaitKind.mutex d))
block-NoIdleMutex k m d busy idle = elim (block_until_locked_lem k m WaitKind.mutex d) [
  | inl e ↦ rw e idle
  | inr e ↦ rw e (λ p z.
      wait_begin_until-NoWaiter k k.current m WaitKind.mutex d p WaitKind.mutex
        (inl (λ q. busy (rw q z))) (idle p z))
]

-- `JRT_MutexLock`, on every branch, leaves no task waiting for a free mutex if there was none.
pub lock-NoIdleMutex :
    (k : Kernel) (m timeout : ℕ) (d : Deadline)
    → NoIdleMutex k
    → NoIdleMutex (outcome_kernel (lock k m timeout d))
unfolding lock count_context_misuse
lock-NoIdleMutex k m timeout d idle =
    if_intro P k.in_isr (λ _. idle)
      (λ _.
        if_intro P (mutex.locked == 0)
          (λ _. set_mutex-NoIdleMutex k m _ (inl (λ z. omega arith)) idle)
          (λ busy.
            if_intro P (mutex.owner == k.current)
              (λ _. set_mutex-NoIdleMutex k m _ (inl (ground arith)) idle)
              (λ _.
                if_intro P (timeout == 0) (λ _. idle)
                  (λ _.
                    block-NoIdleMutex (inherit_priority k mutex.owner (current_task k).priority) m d
                      (ground arith)
                      (OnlyPriorities-NoIdleMutex k _
                        (inherit_priority-OnlyPriorities k mutex.owner (current_task k).priority)
                        idle)))))
  where
    P : Outcome → Type 0
    P o = NoIdleMutex (outcome_kernel o)

    mutex : Objects.Mutex
    mutex = k.mutexes m

HandedTo-NoIdleMutex : (k r : Kernel) (m s : ℕ) → NoIdleMutex k → HandedTo k r m s → NoIdleMutex r
HandedTo-NoIdleMutex k r m s idle h = subst NoIdleMutex (sym h.frame) (
    subst (λ (f : ℕ → Objects.Mutex). NoIdleMutex (record k { tasks = r.tasks; mutexes = f }))
      (sym h.owned)
      (OnlyPriorities-NoIdleMutex
        (set_mutex (wait_end k s 1) m
          (record (k.mutexes m) { owner = s; locked = 1; recursion = 1 }))
        r.tasks h.woken
        (set_mutex-NoIdleMutex (wait_end k s 1) m _ (inl (λ z. omega arith))
          (wait_end-NoIdleMutex k s 1 idle))))

Freed-NoIdleMutex : (k r : Kernel) (m : ℕ) → NoIdleMutex k → Freed k r m → NoIdleMutex r
Freed-NoIdleMutex k r m idle h = subst NoIdleMutex (sym h.frame) (
    subst (λ (f : ℕ → Objects.Mutex). NoIdleMutex (record k { tasks = r.tasks; mutexes = f }))
      (sym h.free)
      (OnlyPriorities-NoIdleMutex
        (set_mutex k m (record (k.mutexes m) { owner = u32_max; locked = 0; recursion = 0 }))
        r.tasks h.alone (set_mutex-NoIdleMutex k m _ (inr h.quiet) idle)))

-- `JRT_MutexUnlock`, on every branch, leaves no task waiting for a free mutex if there was none.
pub unlock-NoIdleMutex :
    (k : Kernel) (m : ℕ) → k.task_count < 4294967296 → NoIdleMutex k → NoIdleMutex (unlock k m).0
unfolding unlock count_context_misuse
unlock-NoIdleMutex k m h idle =
    if_intro P k.in_isr (λ _. idle)
      (λ _.
        if_intro P ((mutex.locked == 0) || (mutex.owner != k.current)) (λ _. idle)
          (λ owned.
            if_intro P (ltb 1 mutex.recursion)
              (λ _. set_mutex-NoIdleMutex k m _ (inl (ground arith)) idle)
              (λ _. elim (release_lem k m h) [
                | inl (s, handed) ↦ HandedTo-NoIdleMutex k (release k m) m s idle handed
                | inr freed ↦ Freed-NoIdleMutex k (release k m) m idle freed
              ])))
  where
    P : Kernel × ℕ → Type 0
    P o = NoIdleMutex o.0

    mutex : Objects.Mutex
    mutex = k.mutexes m
