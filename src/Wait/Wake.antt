-- ===== src/Wait/Wake.antt =====
-- What `task_wake_get_id` and `task_wake` of task.c do, by the task that they select.
use just_rt.Common.{ℕ, ◌<◌, ◌≡◌, ◌⊎◌, inl, inr, arith, u32_max}
use just_rt.Kernel.{Kernel}
use just_rt.Wait.{wake_select, wait_end, wake_get_id, wake}
use just_rt.Wait.Select.{IsBest, NoWaiter, wake_select_lem}

-- `task_wake_get_id` either finds no waiter, changes nothing and returns UINT32_MAX, or ends the
-- wait of the best waiter with result 1 and returns its index.
pub wake_get_id_lem :
    (k : Kernel) (object wait_kind : ℕ)
    → ((wake_get_id k object wait_kind ≡ (k, u32_max))
        × NoWaiter k.tasks object wait_kind k.task_count)
      ⊎ ((s : ℕ) × (wake_get_id k object wait_kind ≡ (wait_end k s 1, s))
          × IsBest k.tasks object wait_kind k.task_count s)
unfolding wake_get_id
wake_get_id_lem k object wait_kind = elim (wake_select_lem k object wait_kind) [
  | inl (e, none) ↦ inl (ground arith, none)
  | inr best ↦ inr (wake_select k object wait_kind, ground (arith, best.inside), best)
]

-- `task_wake` returns 1 exactly when it ended a wait.
pub wake_lem :
    (k : Kernel) (object wait_kind : ℕ)
    → k.task_count < 4294967296
    → ((wake k object wait_kind ≡ (k, 0)) × NoWaiter k.tasks object wait_kind k.task_count)
      ⊎ ((s : ℕ) × (wake k object wait_kind ≡ (wait_end k s 1, 1))
          × IsBest k.tasks object wait_kind k.task_count s)
unfolding wake
wake_lem k object wait_kind h = elim (wake_get_id_lem k object wait_kind) [
  | inl (e, none) ↦ inl (rw e, none)
  | inr (s, e, best) ↦ inr (s, rw e (ground (arith, best.inside)), best)
]
