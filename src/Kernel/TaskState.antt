-- ===== src/Kernel/TaskState.antt =====
-- `JRT_TaskState_t`. `task_t.state` is a `uint32_t`, so a state is a number.
use just_rt.Common.{ℕ}

abbrev pub ready : ℕ
ready = 0

abbrev pub running : ℕ
running = 1

abbrev pub sleeping : ℕ
sleeping = 2

abbrev pub blocked : ℕ
blocked = 3

abbrev pub suspended : ℕ
suspended = 4
