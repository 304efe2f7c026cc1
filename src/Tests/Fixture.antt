-- ===== src/Tests/Fixture.antt =====
-- A small kernel: task 0 runs and owns the mutex at 100, task 1 waits for it, task 2 waits for the
-- semaphore at 200 for ever, task 3 is the idle task. The queue at 300 holds one of two items.
use just_rt.Common.{ℕ, false, update}
use just_rt.Kernel.{Task, Counters, SchedStats, InvariantRecord, Mpu, Kernel}
use just_rt.Kernel.Objects.{Mutex, Queue, Timer}
use just_rt.Kernel.TaskState
use just_rt.Kernel.WaitKind

abbrev pub blank_task : Task
blank_task = record {
  stack_bottom = 4096;
  stack_top = 4608;
  sp = 4540;
  state = TaskState.ready;
  sleep_ticks = 0;
  run_count = 0;
  minimum_sp = 4540;
  high_water_words = 17;
  entry = 8192;
  argument = 0;
  priority = 0;
  base_priority = 0;
  name = 0;
  flags = 0;
  private_data_base = 0;
  private_data_size = 0;
  wait_object = 0;
  wait_kind = WaitKind.idle;
  wait_start = 0;
  wait_deadline = 0;
  wait_forever = 0;
  wait_result = 0;
  notification_value = 0;
  event_wait_bits = 0;
  event_wait_all = 0;
  event_clear_on_exit = 0;
}

abbrev pub running_task : Task
running_task = record blank_task { state = TaskState.running; priority = 3; base_priority = 2 }

abbrev pub mutex_waiter : Task
mutex_waiter = record blank_task {
  state = TaskState.blocked;
  priority = 3;
  base_priority = 3;
  wait_object = 100;
  wait_kind = WaitKind.mutex;
  wait_start = 5;
  wait_deadline = 15;
}

abbrev pub semaphore_waiter : Task
semaphore_waiter = record blank_task {
  state = TaskState.blocked;
  priority = 5;
  base_priority = 5;
  wait_object = 200;
  wait_kind = WaitKind.semaphore;
  wait_start = 5;
  wait_deadline = 4;
  wait_forever = 1;
}

abbrev pub demo_tasks : ℕ → Task
demo_tasks =
    update (update (update (λ _. blank_task) 0 running_task) 1 mutex_waiter) 2 semaphore_waiter

abbrev pub free_mutex : Mutex
free_mutex = record { locked = 0; owner = 4294967295; recursion = 0; next = 0 }

abbrev pub held_mutex : Mutex
held_mutex = record { locked = 1; owner = 0; recursion = 1; next = 0 }

abbrev pub demo_queue : Queue
demo_queue = record {
  storage = 1000;
  capacity = 2;
  item_size = 2;
  head = 1;
  tail = 0;
  count = 1;
  send_reservations = 0;
  receive_reservations = 0;
}

abbrev pub idle_timer : Timer
idle_timer = record {
  deadline = 0;
  period = 0;
  reload_ticks = 0;
  expirations = 0;
  active = 0;
  periodic = 0;
  callback = 0;
  argument = 0;
  next = 0;
}

abbrev pub no_counters : Counters
no_counters = record {
  wait_timeout_semaphore = 0;
  wait_timeout_queue_send = 0;
  wait_timeout_queue_receive = 0;
  wait_timeout_mutex = 0;
  sync_context_misuse = 0;
  misuse_semaphore_take = 0;
  misuse_semaphore_give = 0;
  misuse_semaphore_give_from_isr = 0;
  misuse_mutex_lock = 0;
  misuse_mutex_unlock = 0;
  misuse_queue_send = 0;
  misuse_queue_receive = 0;
  misuse_queue_send_from_isr = 0;
  isr_queue_send_attempted = 0;
  isr_queue_send_accepted = 0;
  isr_queue_send_dropped = 0;
  isr_queue_count_high_water = 0;
}

abbrev pub no_sched : SchedStats
no_sched = record {
  context_switches = 0;
  ready_scan_depth_max = 0;
  pass1_iters_total = 0;
  pass2_iters_total = 0;
  pass2_iters_max = 0;
  stack_fault = 0;
  stack_fault_task = 0;
  stack_fault_sp = 0;
  stack_high_water_words = 0;
  stack_high_water_task = 0;
}

abbrev pub no_invariant : InvariantRecord
no_invariant = record { active = 0; code = 0; task = 0; object = 0; aux = 0; tick = 0 }

abbrev pub no_mpu : Mpu
no_mpu = record {
  stack_guard_base = 0;
  stack_guard_updates = 0;
  private_data_base = 0;
  private_data_size = 0;
  private_data_updates = 0;
  ctrl = 0;
  shcsr = 0;
  rbar = λ _. 0;
  rasr = λ _. 0;
}

-- The byte at address `n` is the number `n`, so that moves show.
abbrev pub demo : Kernel
demo = record {
  tasks = demo_tasks;
  task_count = 4;
  application_task_count = 3;
  current = 0;
  initialized = 1;
  started = 1;
  timer_service_task_index = 3;
  ticks = 7;
  in_isr = false;
  switch_pending = false;
  words = λ _. 0;
  bytes = λ a. a;
  semaphores = λ _. 0;
  mutexes = update (λ _. free_mutex) 100 held_mutex;
  mutex_list = 100;
  mutex_nodes = 1;
  queues = λ _. demo_queue;
  event_groups = λ _. 0;
  timers = λ _. idle_timer;
  timer_list = 0;
  timer_nodes = 0;
  counters = no_counters;
  sched = no_sched;
  invariant = no_invariant;
  fatal_reason = 0;
  mpu = no_mpu;
}
