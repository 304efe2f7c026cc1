-- ===== src/Init/Boot/Stored.antt =====
-- What the task table holds after `JRT_KernelInit` of task.c, field by field.
use just_rt.Common.{ℕ, ◌+◌, ◌-◌, ◌*◌, ◌%◌, ◌≡◌, refl}
use just_rt.Kernel.{Task, Kernel}
use just_rt.Kernel.TaskState
use just_rt.Kernel.WaitKind
use just_rt.Wait.{begin_wait}
use just_rt.Timer.{timer_service_wait_object}
use just_rt.Init.Config.{TaskDefinition, Build}
use just_rt.Init.Prepare.{described, reset_wait}
use just_rt.Init.Boot.Tasks.{service_task, ready_task}

-- `t` holds what the definition `d` says, its stack pointer 17 words below the end of its stack, and
-- `before` is what it was.
pub record Stored (d : TaskDefinition) (before t : Task) : Type 0 where
  pub stack : (t.stack_bottom ≡ d.stack_buffer) × (t.stack_top ≡ d.stack_buffer + 4 * d.stack_words)
  pub pointer :
      (t.sp ≡ d.stack_buffer + 4 * d.stack_words - 68)
      × (t.minimum_sp ≡ d.stack_buffer + 4 * d.stack_words - 68)
      × (t.high_water_words ≡ 17)
  pub call : (t.entry ≡ d.entry) × (t.argument ≡ d.argument)
  pub priorities : (t.priority ≡ d.priority) × (t.base_priority ≡ d.priority)
  pub labels : (t.name ≡ d.name) × (t.flags ≡ d.flags)
  pub private_data :
      (t.private_data_base ≡ d.private_data_base) × (t.private_data_size ≡ d.private_data_size)
  pub events :
      (t.notification_value ≡ 0)
      × (t.event_wait_bits ≡ 0)
      × (t.event_wait_all ≡ 0)
      × (t.event_clear_on_exit ≡ 0)
  pub kept : (t.sleep_ticks ≡ before.sleep_ticks) × (t.run_count ≡ before.run_count)

-- A task that waits for nothing.
pub record NotWaiting (t : Task) : Type 0 where
  pub object : (t.wait_object ≡ 0) × (t.wait_kind ≡ WaitKind.idle)
  pub time : (t.wait_start ≡ 0) × (t.wait_deadline ≡ 0) × (t.wait_forever ≡ 0)
  pub result : t.wait_result ≡ 0

-- The timer service, which began to wait for ever at the tick `now`.
pub record ServiceWaits (now : ℕ) (t : Task) : Type 0 where
  pub state : t.state ≡ TaskState.blocked
  pub object : (t.wait_object ≡ timer_service_wait_object) × (t.wait_kind ≡ WaitKind.timer_service)
  pub time :
      (t.wait_start ≡ now)
      × (t.wait_deadline ≡ (now + 4294967295) % 4294967296)
      × (t.wait_forever ≡ 1)
  pub result : t.wait_result ≡ 0

-- The kernel's own two tasks: the stack lies behind 32 guard bytes of the storage, and there is no
-- private data.
abbrev pub service_description : Build → TaskDefinition
service_description b = record {
  entry = b.timer_service_body;
  argument = 0;
  stack_buffer = b.timer_service_storage + 32;
  stack_words = b.timer_service_stack_words;
  stack_guard = b.timer_service_storage;
  priority = b.timer_service_priority;
  name = b.timer_service_name;
  flags = 0;
  private_data_base = 0;
  private_data_size = 0;
}

abbrev pub idle_description : Build → TaskDefinition
idle_description b = record {
  entry = b.idle_body;
  argument = 0;
  stack_buffer = b.idle_storage + 32;
  stack_words = b.idle_stack_words;
  stack_guard = b.idle_storage;
  priority = 0;
  name = b.idle_name;
  flags = 0;
  private_data_base = 0;
  private_data_size = 0;
}

module _ (t : Task) (d : TaskDefinition) (state : ℕ) where
  abbrev in_state : Task
  in_state = record (ready_task t d) { state = state }

  pub ready_task-Stored : Stored d t in_state
  unfolding described reset_wait
  ready_task-Stored = record {
    stack = (refl, refl);
    pointer = (refl, refl, refl);
    call = (refl, refl);
    priorities = (refl, refl);
    labels = (refl, refl);
    private_data = (refl, refl);
    events = (refl, refl, refl, refl);
    kept = (refl, refl);
  }

  pub ready_task-NotWaiting : NotWaiting in_state
  unfolding described reset_wait
  ready_task-NotWaiting = record { object = (refl, refl); time = (refl, refl, refl); result = refl }

pub ready_task-state :
    (t : Task) (d : TaskDefinition)
    → ready_task t d ≡ record (ready_task t d) { state = TaskState.ready }
unfolding described reset_wait
ready_task-state t d = refl

pub service_task-Stored :
    (b : Build) (k : Kernel) (t : Task) → Stored (service_description b) t (service_task b k t)
unfolding described reset_wait begin_wait
service_task-Stored b k t = record {
  stack = (refl, refl);
  pointer = (refl, refl, refl);
  call = (refl, refl);
  priorities = (refl, refl);
  labels = (refl, refl);
  private_data = (refl, refl);
  events = (refl, refl, refl, refl);
  kept = (refl, refl);
}

pub service_task-ServiceWaits :
    (b : Build) (k : Kernel) (t : Task) → ServiceWaits k.ticks (service_task b k t)
unfolding described reset_wait begin_wait
service_task-ServiceWaits b k t = record {
  state = refl;
  object = (refl, refl);
  time = (refl, refl, refl);
  result = refl;
}
