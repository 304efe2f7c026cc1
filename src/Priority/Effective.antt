-- ===== src/Priority/Effective.antt =====
-- The effective priority of task.c is the highest of a task's own priority and its waiters'.
use just_rt.Common.{ℕ, ◌<◌, ◌≤◌, ◌≡◌, ◌⊎◌, true}
use just_rt.Kernel.{Task, Kernel}
use just_rt.Kernel.Objects.{Mutex}
use just_rt.Priority.{waits_for}

-- `e` is the highest of `base` and the priorities of the tasks before `n` that wait for task `id`.
pub record IsEffective (tasks : ℕ → Task) (mutexes : ℕ → Mutex) (id base n e : ℕ) : Type 0 where
  pub own : base ≤ e
  pub inherited : (j : ℕ) → j < n → waits_for tasks mutexes id j ≡ true → (tasks j).priority ≤ e
  pub attained :
      (e ≡ base)
      ⊎ ((j : ℕ) × (j < n) × (waits_for tasks mutexes id j ≡ true) × (e ≡ (tasks j).priority))
