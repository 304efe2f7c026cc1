-- ===== src/Init/Boot.antt =====
-- `JRT_KernelInit` and `JRT_KernelStart` of task.c.
pub mod Tasks
pub mod Parts
pub mod Stored
pub mod Launched
pub mod Booted
use just_rt.Common.{
  ℕ, ◌+◌, Option, some, none, Bool, true, false, ◌==◌, if◌then◌else◌, List, [], ◌∷◌, update,
}
use just_rt.Kernel.{Kernel, Task, Mpu}
use just_rt.Kernel.TaskState
use just_rt.Kernel.Status.{Status}
use just_rt.Kernel.Status
use just_rt.Mpu.{
  Area, configure_mpu, privileged_flash_attributes, privileged_sram_attributes,
  unprivileged_code_attributes, unprivileged_rodata_attributes, private_data_attributes,
}
use just_rt.Sched.{task_stack_guard}
use just_rt.Init.Config.{KernelConfig, Build, internal_task_count}
use just_rt.Init.Check.{validate, is_ok}
use just_rt.Init.Prepare.{prepare_tasks, prepare_timer_service_task, prepare_idle_task}

-- The regions of `configure_memory_regions`
unfoldable pub memory_regions : Build → List Area
memory_regions b =
    record {
      region = 0;
      first = 0x00400000;
      limit = 0x00600000;
      attributes = privileged_flash_attributes;
    }
    ∷ record {
      region = 1;
      first = 0x20400000;
      limit = 0x20420000;
      attributes = privileged_sram_attributes;
    }
    ∷ record {
      region = 2;
      first = b.functions_start;
      limit = b.functions_end;
      attributes = unprivileged_code_attributes;
    }
    ∷ record {
      region = 3;
      first = b.svc_start;
      limit = b.svc_end;
      attributes = unprivileged_code_attributes;
    }
    ∷ record {
      region = 4;
      first = b.rodata_start;
      limit = b.rodata_end;
      attributes = unprivileged_rodata_attributes;
    }
    ∷ record {
      region = 5;
      first = b.task_data_start;
      limit = b.task_data_end;
      attributes = private_data_attributes;
    }
    ∷ []

-- `JRT_KernelInit` from `application_task_count = …` to `prepare_idle_task()`
unfoldable pub prepare_all : Build → KernelConfig → Kernel → Kernel
prepare_all b c k =
    let counted = record k {
      application_task_count = c.task_count;
      task_count = c.task_count + internal_task_count;
    } in
    let prepared = prepare_tasks b c.tasks c.task_count counted 0 in
    prepare_idle_task b (prepare_timer_service_task b prepared c.task_count)

-- The assignments to the diagnostics, and `kernel_started = 0U`.
unfoldable pub reset_diagnostics : Kernel → Kernel
reset_diagnostics k = record k {
  current = 0;
  sched = record k.sched {
    context_switches = 0;
    ready_scan_depth_max = 0;
    pass1_iters_total = 0;
    pass2_iters_total = 0;
    pass2_iters_max = 0;
    stack_high_water_words = 0;
    stack_high_water_task = 0;
  };
  counters = record k.counters {
    wait_timeout_semaphore = 0;
    wait_timeout_queue_send = 0;
    wait_timeout_queue_receive = 0;
    wait_timeout_mutex = 0;
  };
  invariant = record { active = 0; code = 0; task = 0; object = 0; aux = 0; tick = 0 };
  started = 0;
}

-- The end of `JRT_KernelInit`: the MPU for task 0, which is then RUNNING; `none` where the MPU's
-- loops do not end.
unfoldable pub launch : Build → Kernel → Option Kernel
launch b k =
    let first = k.tasks 0 in
    elim (configure_mpu (memory_regions b) k.mpu (task_stack_guard first) first.private_data_base
      first.private_data_size) [
        | none ↦ none
        | some mpu ↦ some (record k {
          mpu = mpu;
          tasks = update k.tasks 0 (record first { state = TaskState.running });
          initialized = 1;
        })
      ]

-- `JRT_KernelInit`; the pointer to the configuration is null in `none`.
unfoldable pub kernel_init : Build → Option KernelConfig → Kernel → Option (Kernel × Status)
kernel_init b none k = some (k, Status.invalid_config)
kernel_init b (some c) k =
    let built : Option (Kernel × Status) = elim (launch b (reset_diagnostics (prepare_all b c k))) [
      | none ↦ none
      | some k' ↦ some (k', Status.ok)
    ] in
    if is_ok (validate b (some c)) then built else some (k, validate b (some c))

-- `JRT_KernelStart` up to `arch_start_first_task()`; `none` where it loops for ever.
unfoldable pub kernel_start : Kernel → Option Kernel
kernel_start k = if k.initialized == 0 then none else some (record k { started = 1 })
