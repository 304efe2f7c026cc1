-- ===== src/System/Locked.antt =====
-- The calls of mutexes of sync.c move the tasks and keep the links of the mutexes.
use just_rt.Common.{ℕ, ◌≡◌, ◌≢◌, ◌||◌, ltb, ◌==◌, ◌!=◌, if_intro, u32_max, arith, refl, ◌∙◌}
use just_rt.Kernel.{Task, Kernel, current_task}
use just_rt.Kernel.Objects
use just_rt.Kernel.WaitKind
use just_rt.Wait.{wake_get_id, Deadline, outcome_kernel}
use just_rt.Priority.{inherit_priority, restore_priority}
use just_rt.Priority.Unchanged.{
  OnlyPriorities, inherit_priority-OnlyPriorities, restore_priority-OnlyPriorities,
}
use just_rt.Sync.{count_context_misuse}
use just_rt.Sync.Mutex.{set_mutex, lock, hand_over, release, unlock}
use just_rt.System.Moves.{Moves-refl, OnlyPriorities-Moves}
use just_rt.System.State.{
  idle_index, Plain, Moved, Moved-trans, SameTimers, Moved-trans, Plain-refl, Plain-trans,
  tasks-Plain,
}
use just_rt.System.Waits.{counted-Plain, block_until_locked-Plain, wake_get_id-Plain}

-- A step that may write a mutex but keeps the links of all.
pub record Locked (k k' : Kernel) : Type 0 where
  pub moved : Moved k k'
  pub timers : SameTimers k k'
  pub next : (p : ℕ) → (k'.mutexes p).next ≡ (k.mutexes p).next
  pub list : k'.mutex_list ≡ k.mutex_list
  pub nodes : k'.mutex_nodes ≡ k.mutex_nodes

Plain-Locked : {k k' : Kernel} → Plain k k' → Locked k k'
Plain-Locked p = record {
  moved = p.moved;
  timers = p.timers;
  next = λ q. rw p.mutexes.mutexes refl;
  list = p.mutexes.list;
  nodes = p.mutexes.nodes;
}

Locked-trans : {a b c : Kernel} → Locked a b → Locked b c → Locked a c
Locked-trans u v = record {
  moved = Moved-trans u.moved v.moved;
  timers = record {
    timers = v.timers.timers ∙ u.timers.timers;
    list = v.timers.list ∙ u.timers.list;
    nodes = v.timers.nodes ∙ u.timers.nodes;
  };
  next = λ p. v.next p ∙ u.next p;
  list = v.list ∙ u.list;
  nodes = v.nodes ∙ u.nodes;
}

set_mutex-Locked :
    (k : Kernel) (m : ℕ) (v : Objects.Mutex)
    → v.next ≡ (k.mutexes m).next
    → Locked k (set_mutex k m v)
set_mutex-Locked k m v e = record {
  moved = record {
    tasks = Moves-refl (idle_index k) k.tasks;
    task_count = refl;
    application = refl;
    current = refl;
  };
  timers = record { timers = refl; list = refl; nodes = refl };
  next = λ p. ground (arith, e);
  list = refl;
  nodes = refl;
}

priorities-Plain :
    (k : Kernel) (tasks : ℕ → Task)
    → OnlyPriorities k.tasks tasks
    → Plain k (record k { tasks = tasks })
priorities-Plain k tasks u = tasks-Plain k tasks (OnlyPriorities-Moves (idle_index k) u)

pub lock-Locked :
    (k : Kernel) (m timeout : ℕ) (d : Deadline)
    → k.current ≢ idle_index k
    → m ≢ 0
    → Locked k (outcome_kernel (lock k m timeout d))
unfolding lock count_context_misuse
lock-Locked k m timeout d hi hm =
    let mutex = k.mutexes m in
    let raised = inherit_priority k mutex.owner (current_task k).priority in
    if_intro (λ o. Locked k (outcome_kernel o)) k.in_isr (λ _. Plain-Locked (counted-Plain k _))
      (λ _.
        if_intro (λ o. Locked k (outcome_kernel o)) (mutex.locked == 0)
          (λ _. set_mutex-Locked k m _ refl)
          (λ _.
            if_intro (λ o. Locked k (outcome_kernel o)) (mutex.owner == k.current)
              (λ _. set_mutex-Locked k m _ refl)
              (λ _.
                if_intro (λ o. Locked k (outcome_kernel o)) (timeout == 0)
                  (λ _. Plain-Locked (Plain-refl k))
                  (λ _. Plain-Locked (
                    Plain-trans
                      (priorities-Plain k raised.tasks
                        (inherit_priority-OnlyPriorities k mutex.owner (current_task k).priority))
                      (block_until_locked-Plain raised m WaitKind.mutex d hi hm (omega arith)
                        (omega arith)))))))

restore_priority-Plain : (k : Kernel) (id : ℕ) → Plain k (restore_priority k id)
restore_priority-Plain k id = priorities-Plain k _ (restore_priority-OnlyPriorities k id)

release-Locked : (k : Kernel) (m : ℕ) → Locked k (release k m)
unfolding release hand_over
release-Locked k m =
    let woken = (wake_get_id k m WaitKind.mutex).0 in
    let next_owner = (wake_get_id k m WaitKind.mutex).1 in
    let owner = (k.mutexes m).owner in
    let handed = hand_over woken m next_owner in
    let gone : Locked k (restore_priority handed owner) =
      Locked-trans (Plain-Locked (wake_get_id-Plain k m WaitKind.mutex)) (
        Locked-trans (set_mutex-Locked woken m _ (ground arith))
          (Plain-Locked (restore_priority-Plain handed owner))) in
    if_intro (Locked k) (next_owner != u32_max)
      (λ _.
        Locked-trans gone
          (Plain-Locked (restore_priority-Plain (restore_priority handed owner) next_owner)))
      (λ _. gone)

pub unlock-Locked : (k : Kernel) (m : ℕ) → Locked k (unlock k m).0
unfolding unlock count_context_misuse
unlock-Locked k m =
    let mutex = k.mutexes m in
    if_intro (λ (o : Kernel × ℕ). Locked k o.0) k.in_isr (λ _. Plain-Locked (counted-Plain k _))
      (λ _.
        if_intro (λ (o : Kernel × ℕ). Locked k o.0)
          ((mutex.locked == 0) || (mutex.owner != k.current)) (λ _. Plain-Locked (Plain-refl k))
          (λ _.
            if_intro (λ (o : Kernel × ℕ). Locked k o.0) (ltb 1 mutex.recursion)
              (λ _. set_mutex-Locked k m _ refl) (λ _. release-Locked k m)))
