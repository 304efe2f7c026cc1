-- ===== src/Sync/Mutex/State.antt =====
-- The state of one mutex of sync.c: what `sync_invariant_check` demands of it, and that lock and
-- unlock keep it.
use just_rt.Common.{
  ℕ, ◌<◌, ◌≤◌, ◌≡◌, ◌≢◌, inl, inr, arith, ◌==◌, ◌!=◌, ◌||◌, if_intro, u32_max, ltb,
}
use just_rt.Kernel.{Kernel, current_task}
use just_rt.Kernel.Objects
use just_rt.Kernel.WaitKind
use just_rt.Wait.{Deadline, Outcome, outcome_kernel, block_until_locked}
use just_rt.Wait.Waiters.{block_until_locked_lem}
use just_rt.Priority.{inherit_priority}
use just_rt.Sync.{count_context_misuse}
use just_rt.Sync.Mutex.{set_mutex, lock, release, unlock}
use just_rt.Sync.Mutex.Ownership.{release_lem}

-- A free mutex has no owner and no recursion; a held one has a configured owner and a recursion,
-- which is a `uint32_t`.
pub record MutexOk (task_count : ℕ) (v : Objects.Mutex) : Type 0 where
  pub no_owner : v.locked ≡ 0 → v.owner ≡ u32_max
  pub no_recursion : v.locked ≡ 0 → v.recursion ≡ 0
  pub has_owner : v.locked ≢ 0 → v.owner < task_count
  pub has_recursion : v.locked ≢ 0 → v.recursion ≢ 0
  pub word : v.recursion ≤ u32_max

set_mutex-MutexOk :
    (k : Kernel) (m p : ℕ) (v : Objects.Mutex)
    → MutexOk k.task_count v
    → MutexOk k.task_count (k.mutexes p)
    → MutexOk k.task_count ((set_mutex k m v).mutexes p)
set_mutex-MutexOk k m p v new old = if_intro (MutexOk k.task_count) (p == m) (λ _. new) (λ _. old)

block-MutexOk :
    (k : Kernel) (m p : ℕ) (d : Deadline)
    → MutexOk k.task_count (k.mutexes p)
    → let k' = outcome_kernel (block_until_locked k m WaitKind.mutex d) in
      MutexOk k'.task_count (k'.mutexes p)
block-MutexOk k m p d v = elim (block_until_locked_lem k m WaitKind.mutex d) [
  | inl e ↦ rw e v
  | inr e ↦ rw e v
]

-- `JRT_MutexLock` keeps every mutex in a state that `sync_invariant_check` accepts, if the caller
-- is a configured task and the mutex that it locks is not held 2 ^ 32 - 1 times already.
pub lock-MutexOk :
    (k : Kernel) (m timeout p : ℕ) (d : Deadline)
    → k.current < k.task_count
    → (k.mutexes m).recursion < u32_max
    → MutexOk k.task_count (k.mutexes m)
    → MutexOk k.task_count (k.mutexes p)
    → let k' = outcome_kernel (lock k m timeout d) in MutexOk k'.task_count (k'.mutexes p)
unfolding lock count_context_misuse
lock-MutexOk k m timeout p d hc hr vm v =
    if_intro P k.in_isr (λ _. v)
      (λ _.
        if_intro P (mutex.locked == 0) (λ _. set_mutex-MutexOk k m p _ (omega arith) v)
          (λ busy.
            if_intro P (mutex.owner == k.current) (λ _. set_mutex-MutexOk k m p _ (ground arith) v)
              (λ _.
                if_intro P (timeout == 0) (λ _. v)
                  (λ _.
                    block-MutexOk (inherit_priority k mutex.owner (current_task k).priority) m p d
                      v))))
  where
    P : Outcome → Type 0
    P o = MutexOk (outcome_kernel o).task_count ((outcome_kernel o).mutexes p)

    mutex : Objects.Mutex
    mutex = k.mutexes m

release-MutexOk :
    (k : Kernel) (m p : ℕ)
    → k.task_count < 4294967296
    → MutexOk k.task_count (k.mutexes p)
    → MutexOk (release k m).task_count ((release k m).mutexes p)
release-MutexOk k m p h v = elim (release_lem k m h) [
  | inl (s, handed) ↦
      rw (handed.frame, handed.owned)
        (set_mutex-MutexOk k m p _ (grind (arith, handed.best.inside)) v)
  | inr freed ↦ rw (freed.frame, freed.free) (set_mutex-MutexOk k m p _ (omega arith) v)
]

-- `JRT_MutexUnlock` keeps every mutex in a state that `sync_invariant_check` accepts.
pub unlock-MutexOk :
    (k : Kernel) (m p : ℕ)
    → k.task_count < 4294967296
    → MutexOk k.task_count (k.mutexes m)
    → MutexOk k.task_count (k.mutexes p)
    → MutexOk (unlock k m).0.task_count ((unlock k m).0.mutexes p)
unfolding unlock count_context_misuse
unlock-MutexOk k m p h vm v =
    if_intro P k.in_isr (λ _. v)
      (λ _.
        if_intro P ((mutex.locked == 0) || (mutex.owner != k.current)) (λ _. v)
          (λ owned.
            if_intro P (ltb 1 mutex.recursion) (λ more. set_mutex-MutexOk k m p _ (ground arith) v)
              (λ _. release-MutexOk k m p h v)))
  where
    P : Kernel × ℕ → Type 0
    P o = MutexOk o.0.task_count (o.0.mutexes p)

    mutex : Objects.Mutex
    mutex = k.mutexes m
