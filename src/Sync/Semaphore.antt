-- ===== src/Sync/Semaphore.antt =====
-- Binary semaphores of kernel/sync.c.
pub mod Handover
use just_rt.Common.{ℕ, ◌&&◌, not, ◌==◌, ◌!=◌, if◌then◌else◌, add32, update}
use just_rt.Kernel.{Kernel, Counters, request_switch}
use just_rt.Kernel.WaitKind
use just_rt.Wait.{Deadline, Outcome, returned, block_until_locked, wake}
use just_rt.Sync.{count_context_misuse}

abbrev pub set_available : Kernel → ℕ → ℕ → Kernel
set_available k s v = record k { semaphores = update k.semaphores s v }

-- `JRT_SemaphoreCreateBinaryStatic`
unfoldable pub create : Kernel → ℕ → ℕ → Kernel
create k s initially_available = set_available k s (if initially_available != 0 then 1 else 0)

-- `JRT_SemaphoreTake`; resumed, it returns `Wait.wait_result`.
unfoldable pub take : Kernel → ℕ → ℕ → Deadline → Outcome
take k s timeout deadline =
    if k.in_isr
    then returned
        (count_context_misuse
          (λ c. record c { misuse_semaphore_take = add32 c.misuse_semaphore_take 1 }) k)
        0
    else (if k.semaphores s != 0
        then returned (set_available k s 0) 1
        else (if timeout == 0
            then returned k 0
            else block_until_locked k s WaitKind.semaphore deadline))

-- The critical section of the two give operations.
unfoldable pub give_locked : Kernel → ℕ → Kernel
give_locked k s =
    let (woken, hit) = wake k s WaitKind.semaphore in
    if hit == 0 then set_available woken s 1 else woken

-- `JRT_SemaphoreGive`
unfoldable pub give : Kernel → ℕ → Kernel
give k s =
    if k.in_isr
    then count_context_misuse
        (λ c. record c { misuse_semaphore_give = add32 c.misuse_semaphore_give 1 }) k
    else give_locked k s

-- `JRT_SemaphoreGiveFromISR`
unfoldable pub give_from_isr : Kernel → ℕ → Kernel
give_from_isr k s =
    if not k.in_isr
    then count_context_misuse
        (λ c. record c {
          misuse_semaphore_give_from_isr = add32 c.misuse_semaphore_give_from_isr 1;
        })
        k
    else request_switch (give_locked k s)
