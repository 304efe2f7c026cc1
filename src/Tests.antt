-- ===== src/Tests.antt =====
-- The theorems at concrete kernels, and runs of the models.
mod Fixture
mod Waits
mod Locks
mod Queues
mod Switches
mod Timers
mod Services
mod Regions
mod Boot
mod Measures
