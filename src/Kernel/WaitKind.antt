-- ===== src/Kernel/WaitKind.antt =====
-- `task_wait_kind_t`, as the numbers that the enumeration stands for.
use just_rt.Common.{ℕ}

abbrev pub idle : ℕ
idle = 0

abbrev pub semaphore : ℕ
semaphore = 1

abbrev pub queue_send : ℕ
queue_send = 2

abbrev pub queue_receive : ℕ
queue_receive = 3

abbrev pub mutex : ℕ
mutex = 4

abbrev pub notification : ℕ
notification = 5

abbrev pub event_group : ℕ
event_group = 6

abbrev pub timer_service : ℕ
timer_service = 7
