-- ===== src/Init.antt =====
-- kernel/task.c: `JRT_KernelInit` and `JRT_KernelStart`, with the checks of the configuration and
-- the preparation of the tasks, and `arch_build_initial_stack` of arch/cortex_m/port_cm7.c.
-- `uintptr_t` has 32 bits.
pub mod Config
pub mod Check
pub mod Prepare
pub mod Boot
