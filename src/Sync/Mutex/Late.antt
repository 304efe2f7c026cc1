-- ===== src/Sync/Mutex/Late.antt =====
-- `JRT_MutexLock` of sync.c when its deadline has passed before it comes to wait. The deadline is
-- computed before the critical section, so ticks can pass in between.
use just_rt.Common.{
  ℕ, ◌<◌, ◌≡◌, ◌≢◌, inl, inr, sym, ◌∙◌, true, false, arith, ◌==◌, ==_of_ne, if_intro,
}
use mathlib.Core.Bool.{true≢false}
use just_rt.Kernel.{Kernel, Task, current_task}
use just_rt.Kernel.Objects
use just_rt.Kernel.WaitKind
use just_rt.Wait.{Deadline, Outcome, returned, expired, block_until_locked}
use just_rt.Priority.{inherit_priority, waits_for}
use just_rt.Priority.Inherit.{start, inherit_priority_lem}
use just_rt.Priority.Unchanged.{OnlyPriorities, inherit_priority-OnlyPriorities}
use just_rt.Priority.Effective.{IsEffective}
use just_rt.Sync.Mutex.{lock}

block_until_locked-expired :
    (k : Kernel) (object wait_kind : ℕ) (d : Deadline)
    → d.forever ≡ 0
    → expired k.ticks d.start d.tick ≡ true
    → block_until_locked k object wait_kind d ≡ returned k 0
unfolding block_until_locked
block_until_locked-expired k object wait_kind d f e = rw (f, e)

waits_for-OnlyPriorities :
    {a b : ℕ → Task} (mutexes : ℕ → Objects.Mutex) (id j : ℕ)
    → OnlyPriorities a b
    → waits_for b mutexes id j ≡ waits_for a mutexes id j
unfolding waits_for
waits_for-OnlyPriorities mutexes id j u = rw (u.same j)

-- A task calls `JRT_MutexLock` on a mutex that another, configured task holds, with a timeout that
-- is not 0 and a deadline that has passed. If no task waits for a mutex of the owner, and the
-- owner's base priority is below the caller's priority, the call returns 0 with the owner's priority
-- raised, and that is not the highest of the owner's base priority and its waiters' priorities.
pub lock-raised :
    (k : Kernel) (m timeout : ℕ) (d : Deadline)
    → k.in_isr ≡ false
    → (k.mutexes m).locked ≢ 0
    → (k.mutexes m).owner ≢ k.current
    → (k.mutexes m).owner < k.task_count
    → timeout ≢ 0
    → d.forever ≡ 0
    → expired k.ticks d.start d.tick ≡ true
    → ((j : ℕ) → waits_for k.tasks k.mutexes (k.mutexes m).owner j ≡ false)
    → (k.tasks (k.mutexes m).owner).base_priority < (current_task k).priority
    → let owner = (k.mutexes m).owner in
      let k' = inherit_priority k owner (current_task k).priority in
      (lock k m timeout d ≡ returned k' 0)
      × ¬ IsEffective k'.tasks k.mutexes owner
          (k.tasks owner).base_priority
          k.task_count
          (k'.tasks owner).priority
unfolding lock
lock-raised k m timeout d isr held other inside nonzero finite late alone below =
    let owner : ℕ = (k.mutexes m).owner in
    let k' : Kernel = inherit_priority k owner (current_task k).priority in
    let raised =
      inherit_priority_lem k owner (current_task k).priority {n = 0} {m = owner} inside
        (omega arith) start in
    let locked : ((k.mutexes m).locked == 0) ≡ false = ==_of_ne (k.mutexes m).locked 0 held in
    let apart : (owner == k.current) ≡ false = ==_of_ne owner k.current other in
    let waits : (timeout == 0) ≡ false = ==_of_ne timeout 0 nonzero in
    (
      if_intro (λ (o : Outcome). o ≡ returned k' 0) k.in_isr
          (λ handler. absurd (true≢false (sym handler ∙ isr)))
          (λ _.
            rw (locked, apart, waits)
              (block_until_locked-expired k' m WaitKind.mutex d finite late)),
      λ best. elim best.attained [
        | inl base ↦ absurd (omega (arith, raised.1))
        | inr (j, l, w, e) ↦ absurd (
            true≢false (
              sym w
              ∙ waits_for-OnlyPriorities k.mutexes owner j
                  (inherit_priority-OnlyPriorities k owner (current_task k).priority)
              ∙ alone j))
      ],
    )
