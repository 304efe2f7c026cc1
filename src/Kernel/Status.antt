-- ===== src/Kernel/Status.antt =====
-- `JRT_Status_t` of kernel/kernel.h.

pub data Status : Type 0 where
  ok invalid_config too_many_tasks invalid_entry invalid_stack : Status
  invalid_memory_region not_initialized invalid_task invalid_state : Status
  invalid_context invalid_priority : Status
