-- ===== src/Sync.antt =====
-- kernel/sync.c: semaphores, recursive mutexes and queues, and their shared misuse counters.
-- A blocking service computes its deadline (`Wait.wait_deadline`) when it is entered, with
-- interrupts enabled, and enters its critical section later: the deadline is an argument of the
-- models below, so ticks may have passed in between.
pub mod Semaphore
pub mod Mutex
pub mod Queue
use just_rt.Common.{add32}
use just_rt.Kernel.{Kernel, Counters}

-- `count_context_misuse`, given the increment of the service's own counter.
unfoldable pub count_context_misuse : (Counters → Counters) → Kernel → Kernel
count_context_misuse bump k =
    let c = bump k.counters in
    record k { counters = record c { sync_context_misuse = add32 c.sync_context_misuse 1 } }
