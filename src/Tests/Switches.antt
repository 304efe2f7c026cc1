-- ===== src/Tests/Switches.antt =====
-- The scheduler of task.c at concrete kernels.
use just_rt.Common.{ℕ, ◌≡◌, refl, arith, some}
use just_rt.Kernel.{Kernel}
use just_rt.Sched.{select_offset, next_index}
use just_rt.Sched.Choice.{Chosen, next_index-Chosen}
use just_rt.Tests.Fixture.{demo}

next_index-Chosen_example :
    (offset : ℕ) × (select_offset demo.tasks 4 0 ≡ some offset)
    × Chosen demo.tasks 4 0 (next_index demo.tasks 4 0) offset
next_index-Chosen_example = next_index-Chosen demo.tasks 4 0 3 (omega arith) (omega arith) refl
