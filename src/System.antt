-- ===== src/System.antt =====
-- The kernel of task.c, sync.c and timer.c as a whole: the steps that its calls, its interrupts and
-- PendSV take, and what holds in every state that they reach.
pub mod Moves
pub mod State
pub mod Waits
pub mod Semaphores
pub mod Queues
pub mod Locked
pub mod Mutexes
pub mod Services
pub mod Events
pub mod Svc
pub mod Timers
pub mod Ticks
pub mod Switches
pub mod Steps
pub mod Reached
pub mod Started
pub mod Sleep
