-- ===== src/Wait/Select.antt =====
-- Which waiter `task_wake_get_id` selects.
use just_rt.Common.{
  ℕ, zero, suc, ◌+◌, ◌<◌, ◌≤◌, ◌≡◌, ◌⊎◌, inl, inr, refl, true, false, arith, Bool-cases,
  if◌then◌else◌,
}
use just_rt.Kernel.{Task, Kernel}
use just_rt.Wait.{waits_on, improves, wake_scan, wake_select}

-- `s` is the highest-priority waiter among the tasks before `n`, the first of them at a tie.
pub record IsBest (tasks : ℕ → Task) (object wait_kind n s : ℕ) : Type 0 where
  pub inside : s < n
  pub waiting : waits_on tasks object wait_kind s ≡ true
  pub highest :
      (j : ℕ)
      → j < n
      → waits_on tasks object wait_kind j ≡ true
      → (tasks j).priority ≤ (tasks s).priority
  pub first :
      (j : ℕ)
      → j < s
      → waits_on tasks object wait_kind j ≡ true
      → (tasks j).priority < (tasks s).priority

abbrev pub NoWaiter : (ℕ → Task) → ℕ → ℕ → ℕ → Type 0
NoWaiter tasks object wait_kind n = (j : ℕ) → j < n → waits_on tasks object wait_kind j ≡ false

module _ (tasks : ℕ → Task) (task_count object wait_kind : ℕ) where
  -- What the loop has found before `index`.
  abbrev Found : ℕ → ℕ → ℕ → Type 0
  Found index selected priority =
      ((selected ≡ task_count) × NoWaiter tasks object wait_kind index)
      ⊎ (IsBest tasks object wait_kind index selected × (priority ≡ (tasks selected).priority))

  Found-step :
      (index selected priority : ℕ)
      → index < task_count
      → Found index selected priority
      → let better = improves tasks task_count object wait_kind index selected priority in
        Found
          (index + 1)
          (if better then index else selected)
          (if better then (tasks index).priority else priority)
  Found-step index selected priority l f =
      elim (Bool-cases (improves tasks task_count object wait_kind index selected priority)) [
        | inl b ↦ rw b (inr (take f b, refl))
        | inr b ↦ rw b (keep f b)
      ]
    where
      take :
          Found index selected priority
          → improves tasks task_count object wait_kind index selected priority ≡ true
          → IsBest tasks object wait_kind (index + 1) index
      take f b = unfold improves in grind arith

      keep :
          Found index selected priority
          → improves tasks task_count object wait_kind index selected priority ≡ false
          → Found (index + 1) selected priority
      keep (inl (e, none)) b = unfold improves in inl (e, λ j h. grind (arith, none))
      keep (inr (best, e)) b =
          unfold improves in
          inr (
            record {
              inside = omega arith;
              waiting = best.waiting;
              highest = λ j h w. grind (arith, best.highest);
              first = best.first;
            },
            e,
          )

  wake_scan-Found :
      (rounds index selected priority : ℕ)
      → index + rounds ≡ task_count
      → Found index selected priority
      → (p : ℕ) × Found task_count
          (wake_scan tasks task_count object wait_kind rounds index selected priority)
          p
  unfolding wake_scan
  wake_scan-Found zero index selected priority e f = (priority, ground arith)
  wake_scan-Found (suc rounds) index selected priority e f =
      wake_scan-Found rounds (index + 1)
        (if improves tasks task_count object wait_kind index selected priority
          then index
          else selected)
        (if improves tasks task_count object wait_kind index selected priority
          then (tasks index).priority
          else priority)
        (omega arith) (Found-step index selected priority (omega arith) f)

-- `task_wake_get_id` selects the highest-priority waiter of the object and kind among the
-- configured tasks, the one with the lowest index at a tie; it selects `task_count` only if no
-- task waits.
pub wake_select_lem :
    (k : Kernel) (object wait_kind : ℕ)
    → let s = wake_select k object wait_kind in
      ((s ≡ k.task_count) × NoWaiter k.tasks object wait_kind k.task_count)
      ⊎ IsBest k.tasks object wait_kind k.task_count s
unfolding wake_select
wake_select_lem k object wait_kind = ground (
  arith,
  wake_scan-Found k.tasks k.task_count object wait_kind k.task_count 0 k.task_count 0 (omega arith)
      (inl (refl, λ j h. absurd (omega arith))),
)
