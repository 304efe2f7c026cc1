-- ===== src/Tests/Waits.antt =====
-- Waits, wake-ups and priorities of task.c at concrete kernels.
use just_rt.Common.{◌≤◌, ◌≡◌, ◌⊎◌, ◌↔◌, refl, true, arith, add32}
use just_rt.Kernel.WaitKind
use just_rt.Wait.{expired, wake_select, waits_on, wake_scan, improves}
use just_rt.Wait.Expiry.{expired_iff}
use just_rt.Wait.Select.{IsBest, NoWaiter, wake_select_lem}
use just_rt.Tests.Fixture.{demo}

-- A timeout of 10 ticks that spans the wrap of the counter.
expired_iff_example :
    (expired (add32 4294967290 9) 4294967290 (add32 4294967290 10) ≡ true) ↔ (10 ≤ 9)
expired_iff_example = expired_iff 4294967290 10 9 (omega arith) (omega arith) (omega arith)

wake_select-demo : wake_select demo 100 WaitKind.mutex ≡ 1
unfolding wake_select wake_scan improves waits_on
wake_select-demo = refl

wake_select_lem_example :
    ((wake_select demo 100 WaitKind.mutex ≡ 4) × NoWaiter demo.tasks 100 WaitKind.mutex 4)
    ⊎ IsBest demo.tasks 100 WaitKind.mutex 4 (wake_select demo 100 WaitKind.mutex)
wake_select_lem_example = wake_select_lem demo 100 WaitKind.mutex
