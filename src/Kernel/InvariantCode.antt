-- ===== src/Kernel/InvariantCode.antt =====
-- `JRT_KernelInvariantCode_t`
use just_rt.Common.{ℕ}

abbrev pub ok : ℕ
ok = 0

abbrev pub task_state : ℕ
task_state = 1

abbrev pub blocked_wait_object : ℕ
blocked_wait_object = 2

abbrev pub blocked_wait_kind : ℕ
blocked_wait_kind = 3

abbrev pub nonblocked_wait_metadata : ℕ
nonblocked_wait_metadata = 4

abbrev pub mutex_list_cycle : ℕ
mutex_list_cycle = 5

abbrev pub mutex_unlocked_state : ℕ
mutex_unlocked_state = 6

abbrev pub mutex_owner : ℕ
mutex_owner = 7

abbrev pub mutex_recursion : ℕ
mutex_recursion = 8

abbrev pub timer_list_cycle : ℕ
timer_list_cycle = 9

abbrev pub timer_periodic_state : ℕ
timer_periodic_state = 10
