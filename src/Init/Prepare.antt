-- ===== src/Init/Prepare.antt =====
-- The preparation of the tasks in task.c, and the initial stack frame of port_cm7.c.
use just_rt.Common.{ℕ, zero, suc, ◌+◌, ◌-◌, ◌*◌, ◌/◌, List, [], ◌∷◌, update}
use just_rt.Kernel.{Task, Kernel}
use just_rt.Kernel.TaskState
use just_rt.Kernel.WaitKind
use just_rt.Wait.{begin_wait, wait_deadline, wait_forever}
use just_rt.Sched.{stack_fill, words_between}
use just_rt.Timer.{timer_service_wait_object}
use just_rt.Init.Config.{TaskDefinition, Build, guard_bytes}

-- The loop of `fill_stack`, with the words left.
unfoldable pub fill_words : (ℕ → ℕ) → ℕ → ℕ → ℕ → ℕ
fill_words words zero word = words
fill_words words (suc n) word = fill_words (update words word stack_fill) n (word + 4)

-- `fill_stack`
unfoldable pub fill_stack : (ℕ → ℕ) → ℕ → ℕ → ℕ → ℕ
fill_stack words bottom top = fill_words words (words_between bottom top) bottom

-- `*--stack = value` for each value in turn: the memory and the stack pointer.
unfoldable pub push_words : (ℕ → ℕ) → ℕ → List ℕ → (ℕ → ℕ) × ℕ
push_words words stack [] = (words, stack)
push_words words stack (v ∷ values) = push_words (update words (stack - 4) v) (stack - 4) values

-- The frame of `arch_build_initial_stack`, from the top down: xPSR, the entry, the trap that a task
-- returns to, r12, r3, r2, r1, the argument in r0, r11 to r4, and EXC_RETURN.
unfoldable pub initial_frame : ℕ → ℕ → ℕ → List ℕ
initial_frame trap entry argument =
    0x01000000
    ∷ (entry / 2 * 2)
    ∷ (trap / 2 * 2 + 1)
    ∷ 0
    ∷ 0
    ∷ 0
    ∷ 0
    ∷ argument
    ∷ 0
    ∷ 0
    ∷ 0
    ∷ 0
    ∷ 0
    ∷ 0
    ∷ 0
    ∷ 0
    ∷ 0xFFFFFFFD
    ∷ []

-- `arch_build_initial_stack`
unfoldable pub build_initial_stack : ℕ → (ℕ → ℕ) → ℕ → ℕ → ℕ → (ℕ → ℕ) × ℕ
build_initial_stack trap words stack_top entry argument =
    push_words words stack_top (initial_frame trap entry argument)

-- `JRT_INITIAL_STACK_USED_WORDS`
abbrev pub initial_stack_used_words : ℕ
initial_stack_used_words = 17

-- `task_wait_reset`
unfoldable pub reset_wait : Task → Task
reset_wait t = record t {
  wait_object = 0;
  wait_kind = WaitKind.idle;
  wait_start = 0;
  wait_deadline = 0;
  wait_forever = 0;
  wait_result = 0;
  notification_value = 0;
  event_wait_bits = 0;
  event_wait_all = 0;
  event_clear_on_exit = 0;
}

-- What the three preparations store in a task, but for its state: its stack, its stack pointer, and
-- what its definition says.
unfoldable pub described : Task → TaskDefinition → ℕ → Task
described t d sp = reset_wait (record t {
  stack_bottom = d.stack_buffer;
  stack_top = d.stack_buffer + 4 * d.stack_words;
  sp = sp;
  minimum_sp = sp;
  high_water_words = initial_stack_used_words;
  entry = d.entry;
  argument = d.argument;
  priority = d.priority;
  base_priority = d.priority;
  name = d.name;
  flags = d.flags;
  private_data_base = d.private_data_base;
  private_data_size = d.private_data_size;
})

-- The memory and the stack pointer once the stack of a task is filled and its frame built.
unfoldable pub prepare_stack : Build → (ℕ → ℕ) → TaskDefinition → (ℕ → ℕ) × ℕ
prepare_stack b words d =
    build_initial_stack b.task_exit_trap
      (fill_stack words d.stack_buffer (d.stack_buffer + 4 * d.stack_words))
      (d.stack_buffer + 4 * d.stack_words) d.entry d.argument

-- `prepare_task`
unfoldable pub prepare_task : Build → Kernel → ℕ → TaskDefinition → Kernel
prepare_task b k index d =
    let (words, sp) = prepare_stack b k.words d in
    record k {
      words = words;
      tasks =
          update k.tasks index
            (described (record (k.tasks index) { state = TaskState.ready }) d sp);
    }

-- The description that `prepare_idle_task` uses.
abbrev pub idle_definition : Build → TaskDefinition
idle_definition b = record {
  entry = b.idle_body;
  argument = 0;
  stack_buffer = b.idle_storage + guard_bytes;
  stack_words = b.idle_stack_words;
  stack_guard = b.idle_storage;
  priority = 0;
  name = b.idle_name;
  flags = 0;
  private_data_base = 0;
  private_data_size = 0;
}

-- `prepare_idle_task`
unfoldable pub prepare_idle_task : Build → Kernel → Kernel
prepare_idle_task b k = prepare_task b k (k.task_count - 1) (idle_definition b)

-- The description that `prepare_timer_service_task` uses.
abbrev pub timer_service_definition : Build → TaskDefinition
timer_service_definition b = record {
  entry = b.timer_service_body;
  argument = 0;
  stack_buffer = b.timer_service_storage + guard_bytes;
  stack_words = b.timer_service_stack_words;
  stack_guard = b.timer_service_storage;
  priority = b.timer_service_priority;
  name = b.timer_service_name;
  flags = 0;
  private_data_base = 0;
  private_data_size = 0;
}

-- `prepare_timer_service_task`: it waits at once, for ever.
unfoldable pub prepare_timer_service_task : Build → Kernel → ℕ → Kernel
prepare_timer_service_task b k index =
    let d = timer_service_definition b in
    let (words, sp) = prepare_stack b k.words d in
    record k {
      timer_service_task_index = index;
      words = words;
      tasks = update k.tasks index (
          begin_wait (described (k.tasks index) d sp) timer_service_wait_object
            WaitKind.timer_service (wait_deadline k wait_forever));
    }

-- The loop over the configured tasks in `JRT_KernelInit`, with the rounds left.
unfoldable pub prepare_tasks : Build → (ℕ → TaskDefinition) → ℕ → Kernel → ℕ → Kernel
prepare_tasks b tasks zero k index = k
prepare_tasks b tasks (suc rounds) k index =
    prepare_tasks b tasks rounds (prepare_task b k index (tasks index)) (index + 1)
