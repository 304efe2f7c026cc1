-- ===== src/Wait/Expiry.antt =====
-- Expiry of a wait, in task.c: unsigned elapsed ticks, across the wrap of `g_kernel_ticks`.
use just_rt.Common.{ℕ, ◌<◌, ◌≤◌, ◌≡◌, ◌↔◌, true, arith, add32}
use just_rt.Wait.{expired}

-- A wait that began at `start` with a timeout below 2 ^ 32 is expired after `elapsed` ticks,
-- `elapsed` below 2 ^ 32, exactly when `elapsed` has reached the timeout. The tick counter and the
-- deadline may both wrap in between.
pub expired_iff :
    (start timeout elapsed : ℕ)
    → start < 4294967296
    → timeout < 4294967296
    → elapsed < 4294967296
    → (expired (add32 start elapsed) start (add32 start timeout) ≡ true) ↔ (timeout ≤ elapsed)
unfolding expired
expired_iff start timeout elapsed hs ht he = (λ h. ground arith, λ h. ground arith)
