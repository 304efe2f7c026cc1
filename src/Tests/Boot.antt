-- ===== src/Tests/Boot.antt =====
-- The theorems on `JRT_KernelInit` of task.c and on what the kernel reaches from there, for two
-- tasks, the second unprivileged with 64 bytes of private data.
use just_rt.Common.{◌+◌, ◌*◌, ℕ, ◌≡◌, ◌≢◌, ◌↔◌, ◌⊎◌, refl, arith, Option, some, none, [], update}
use just_rt.Kernel.{Mpu, Kernel, current_task}
use just_rt.Kernel.TaskState
use just_rt.Kernel.Status.{Status}
use just_rt.Wait.Metadata.{TasksOk}
use just_rt.Timer.{periodic_fault}
use just_rt.Tick.Check.{KernelOk}
use just_rt.Mpu.{
  set_task_private_data, enable_mpu, widen, grow, region_of, configure_areas, configure_fixed,
  configure_mpu, configure_region_range,
}
use just_rt.Mpu.Range.{Configured, configure_region_range-Configured}
use just_rt.Init.Config.{TaskDefinition, KernelConfig, Build}
use just_rt.Init.Check.{
  region_in_kernel, region_taken, region_outside, region_misplaced, validate_private_region,
  check_region, ranges_overlap, any_from, stacks_overlap, stack_misplaced, validate_task_stack,
  check_definition, first_error, validate,
}
use just_rt.Init.Check.Valid.{Valid, BuildOk, Words}
use just_rt.Init.Check.Exact.{validate_iff}
use just_rt.Init.Prepare.{
  prepare_idle_task, prepare_timer_service_task, prepare_task, prepare_tasks, described, reset_wait,
}
use just_rt.Init.Boot.{
  prepare_all, reset_diagnostics, memory_regions, launch, kernel_init, kernel_start,
}
use just_rt.Init.Boot.Parts.{SectionsOk}
use just_rt.Init.Boot.Booted.{Booted, kernel_init-Booted}
use just_rt.Service.Lifecycle.{sleep_current}
use just_rt.System.State.{SystemOk, idle_index}
use just_rt.System.Steps.{Reachable, here, later, start, blocking_call, sleep}
use just_rt.System.Reached.{Live}
use just_rt.System.Started.{kernel_init-Live}
use just_rt.Tests.Fixture.{blank_task, demo, no_mpu}

abbrev demo_build : Build
demo_build = record {
  max_application_tasks = 4;
  max_task_priority = 7;
  timer_service_priority = 7;
  minimum_stack_words = 32;
  idle_stack_words = 32;
  timer_service_stack_words = 32;
  idle_storage = 0x20408000;
  timer_service_storage = 0x20409000;
  idle_body = 0x400100;
  idle_name = 0x400200;
  timer_service_body = 0x400300;
  timer_service_name = 0x400400;
  task_exit_trap = 0x400500;
  private_data_start = 0x20410000;
  private_data_end = 0x20411000;
  functions_start = 0x401000;
  functions_end = 0x402000;
  svc_start = 0x402000;
  svc_end = 0x402100;
  rodata_start = 0x403000;
  rodata_end = 0x403400;
  task_data_start = 0x20412000;
  task_data_end = 0x20412000;
}

abbrev first_task : TaskDefinition
first_task = record {
  entry = 0x401000;
  argument = 5;
  stack_buffer = 0x20400020;
  stack_words = 32;
  stack_guard = 0x20400000;
  priority = 2;
  name = 0;
  flags = 0;
  private_data_base = 0;
  private_data_size = 0;
}

abbrev second_task : TaskDefinition
second_task = record first_task {
  stack_buffer = 0x20401020;
  stack_guard = 0x20401000;
  flags = 1;
  private_data_base = 0x20410040;
  private_data_size = 64;
}

abbrev demo_config : KernelConfig
demo_config = record {
  table = 0x403000;
  tasks = update (λ _. first_task) 1 second_task;
  task_count = 2;
}

abbrev reset_kernel : Kernel
reset_kernel = record demo {
  tasks = λ _. blank_task;
  task_count = 0;
  application_task_count = 0;
  initialized = 0;
  started = 0;
  mutex_list = 0;
  mutex_nodes = 0;
}

demo-BuildOk : BuildOk demo_build
demo-BuildOk = omega arith

demo-SectionsOk : SectionsOk demo_build
demo-SectionsOk = omega arith

demo-Words : (i : ℕ) → Words (demo_config.tasks i)
demo-Words i = ground arith

reset-TasksOk : TasksOk reset_kernel.tasks
reset-TasksOk i = ground arith

reset-KernelOk : KernelOk reset_kernel
unfolding periodic_fault
reset-KernelOk = record {
  tasks = reset-TasksOk;
  mutexes = ([], record { chain = refl; counted = refl }, tt);
  timers = (([], record { chain = refl; counted = refl }), λ p. refl);
}

validate_iff_example :
    (validate demo_build (some demo_config) ≡ Status.ok) ↔ Valid demo_build demo_config
validate_iff_example = validate_iff demo_build demo_config demo-BuildOk demo-Words

kernel_init-Booted_example :
    (Valid demo_build demo_config
      × ((k' : Kernel) × (kernel_init demo_build (some demo_config) reset_kernel
            ≡ some (k', Status.ok))
          × Booted demo_build demo_config reset_kernel k'))
    ⊎ ((¬ Valid demo_build demo_config)
        × ((s : Status) × (s ≢ Status.ok)
            × (kernel_init demo_build (some demo_config) reset_kernel ≡ some (reset_kernel, s))))
kernel_init-Booted_example =
    kernel_init-Booted demo_build demo_config reset_kernel demo-BuildOk demo-SectionsOk demo-Words
      reset-KernelOk (omega arith) (λ i. omega arith)

abbrev init_result : Option (Kernel × Status) → Kernel
init_result none = reset_kernel
init_result (some (k, s)) = k

abbrev started_with : Kernel → Kernel
started_with k = record k { started = 1 }

-- The kernel after `JRT_KernelInit`.
abbrev initial : Kernel
initial = init_result (kernel_init demo_build (some demo_config) reset_kernel)

demo_accepted : validate demo_build (some demo_config) ≡ Status.ok
unfolding validate first_error check_definition validate_task_stack stack_misplaced stacks_overlap
    any_from ranges_overlap check_region validate_private_region region_misplaced region_outside
    region_taken region_in_kernel
demo_accepted = refl

initial-ok : kernel_init demo_build (some demo_config) reset_kernel ≡ some (initial, Status.ok)
unfolding kernel_init launch configure_mpu configure_fixed configure_areas memory_regions
    configure_region_range region_of grow widen reset_diagnostics prepare_all enable_mpu
    set_task_private_data prepare_idle_task prepare_timer_service_task prepare_task prepare_tasks
    described reset_wait
initial-ok = rw demo_accepted refl

-- After the start task 0 runs, which is not the idle task.
demo_running :
    (kernel_start initial ≡ some (started_with initial))
    × ((started_with initial).current ≢ idle_index (started_with initial))
    × ((current_task (started_with initial)).state ≡ TaskState.running)
unfolding kernel_start kernel_init launch configure_mpu configure_fixed configure_areas
    memory_regions configure_region_range region_of grow widen reset_diagnostics prepare_all
    validate first_error check_definition validate_task_stack stack_misplaced stacks_overlap
    any_from ranges_overlap check_region validate_private_region region_misplaced region_outside
    region_taken region_in_kernel enable_mpu prepare_idle_task prepare_timer_service_task
    prepare_task prepare_tasks described reset_wait set_task_private_data
demo_running = (refl, omega arith, refl)

-- The kernel is started, and its first task sleeps for three ticks.
demo_steps : Reachable (λ i. 128 * i + 128) initial (sleep_current (started_with initial) 3)
demo_steps =
    later (later here (start demo_running.0))
      (blocking_call demo_running.1 demo_running.2 (sleep 3))

kernel_init-Live_example :
    SystemOk (sleep_current (started_with initial) 3)
    × Live (λ i. 128 * i + 128) (sleep_current (started_with initial) 3)
kernel_init-Live_example =
    kernel_init-Live demo_build demo_config (λ i. 128 * i + 128) reset_kernel initial
      (sleep_current (started_with initial) 3) demo-BuildOk demo-SectionsOk demo-Words
      reset-KernelOk (omega arith) (λ i. omega arith) initial-ok demo_steps

configure_region_range-Configured_example :
    (m' : Mpu) × (configure_region_range no_mpu 2 0x401000 0x402100 7 ≡ some m')
    × Configured no_mpu m' 2 0x401000 0x402100 7
configure_region_range-Configured_example =
    configure_region_range-Configured no_mpu 2 0x401000 0x402100 7 (omega arith) (omega arith)
