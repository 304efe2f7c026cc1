-- ===== src/Kernel/Objects.antt =====
-- The structures that an application owns: kernel/sync.h and kernel/timer.h.
-- A semaphore is its `available` and an event group its `bits`, a number each.
use just_rt.Common.{ℕ}

-- `JRT_Mutex_t`
pub record Mutex : Type 0 where
  pub locked : ℕ
  pub owner : ℕ
  pub recursion : ℕ
  pub next : ℕ

-- `JRT_Queue_t`
pub record Queue : Type 0 where
  pub storage : ℕ
  pub capacity : ℕ
  pub item_size : ℕ
  pub head : ℕ
  pub tail : ℕ
  pub count : ℕ
  pub send_reservations : ℕ
  pub receive_reservations : ℕ

-- `JRT_Timer_t`
pub record Timer : Type 0 where
  pub deadline : ℕ
  pub period : ℕ
  pub reload_ticks : ℕ
  pub expirations : ℕ
  pub active : ℕ
  pub periodic : ℕ
  pub callback : ℕ
  pub argument : ℕ
  pub next : ℕ
