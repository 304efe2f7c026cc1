-- ===== src/Service.antt =====
-- Services of kernel/task.c that act on a task: suspension, resumption and sleep, task
-- notifications, and event groups.
pub mod Lifecycle
pub mod Notification
pub mod EventGroup
pub mod Svc
