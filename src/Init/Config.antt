-- ===== src/Init/Config.antt =====
-- What `JRT_KernelInit` of task.c is given: the configuration of kernel/kernel.h, the constants of
-- JRTConfig.h, and the addresses that the linker chooses.
use just_rt.Common.{ℕ, ◌*◌, u32, add32}

-- `JRT_TaskDefinition_t`, without the benchmark's field.
pub record TaskDefinition : Type 0 where
  pub entry : ℕ
  pub argument : ℕ
  pub stack_buffer : ℕ
  pub stack_words : ℕ
  pub stack_guard : ℕ
  pub priority : ℕ
  pub name : ℕ
  pub flags : ℕ
  pub private_data_base : ℕ
  pub private_data_size : ℕ

-- `JRT_KernelConfig_t`: the address of the table, and its elements.
pub record KernelConfig : Type 0 where
  pub table : ℕ
  pub tasks : ℕ → TaskDefinition
  pub task_count : ℕ

-- The constants of JRTConfig.h and port_contract.h, and the addresses of the idle task's and the
-- timer service's storage (guard words, then stack), of their functions and names, of
-- `task_exit_trap`, and of the sections that the linker script bounds.
pub record Build : Type 0 where
  pub max_application_tasks : ℕ
  pub max_task_priority : ℕ
  pub timer_service_priority : ℕ
  pub minimum_stack_words : ℕ
  pub idle_stack_words : ℕ
  pub timer_service_stack_words : ℕ
  pub idle_storage : ℕ
  pub timer_service_storage : ℕ
  pub idle_body : ℕ
  pub idle_name : ℕ
  pub timer_service_body : ℕ
  pub timer_service_name : ℕ
  pub task_exit_trap : ℕ
  pub private_data_start : ℕ
  pub private_data_end : ℕ
  pub functions_start : ℕ
  pub functions_end : ℕ
  pub svc_start : ℕ
  pub svc_end : ℕ
  pub rodata_start : ℕ
  pub rodata_end : ℕ
  pub task_data_start : ℕ
  pub task_data_end : ℕ

-- `JRT_INTERNAL_TASK_COUNT`
abbrev pub internal_task_count : ℕ
internal_task_count = 2

-- `JRT_MAX_KERNEL_TASKS`
abbrev pub max_kernel_tasks : ℕ
max_kernel_tasks = 3

-- `JRT_TASK_GUARD_WORDS * sizeof(uint32_t)`
abbrev pub guard_bytes : ℕ
guard_bytes = 32

-- The address behind the last word of a stack.
abbrev pub stack_end : TaskDefinition → ℕ
stack_end d = add32 d.stack_buffer (u32 (d.stack_words * 4))
