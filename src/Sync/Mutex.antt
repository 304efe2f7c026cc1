-- ===== src/Sync/Mutex.antt =====
-- Recursive mutexes of kernel/sync.c, and the registered list of them.
pub mod Ownership
pub mod Idle
pub mod State
pub mod Registry
pub mod Late
use just_rt.Common.{
  ℕ, zero, suc, ◌+◌, Bool, true, false, ◌&&◌, ◌||◌, ltb, ◌==◌, ◌!=◌, if◌then◌else◌, u32_max, add32,
  sub32, update,
}
use just_rt.Kernel.{Kernel, Counters, current_task}
use just_rt.Kernel.Objects
use just_rt.Kernel.WaitKind
use just_rt.Wait.{Deadline, Outcome, returned, block_until_locked, wake_get_id}
use just_rt.Priority.{inherit_priority, restore_priority}
use just_rt.Intrusive.{linked_from}
use just_rt.Sync.{count_context_misuse}

abbrev pub set_mutex : Kernel → ℕ → Objects.Mutex → Kernel
set_mutex k m v = record k { mutexes = update k.mutexes m v }

-- `mutex_is_linked_locked`; `mutex_nodes`, the number of mutexes linked, bounds the walk.
unfoldable pub is_linked : Kernel → ℕ → Bool
is_linked k m = linked_from (λ p. (k.mutexes p).next) m k.mutex_nodes k.mutex_list

-- `mutex_link_locked`; `mutex_nodes` counts what it links.
unfoldable pub link : Kernel → ℕ → Kernel
link k m = if is_linked k m then k else record k {
  mutexes = update k.mutexes m (record (k.mutexes m) { next = k.mutex_list });
  mutex_list = m;
  mutex_nodes = k.mutex_nodes + 1;
}

-- `JRT_MutexCreateRecursiveStatic`
unfoldable pub create : Kernel → ℕ → Kernel
create k m =
    let next = if is_linked k m then (k.mutexes m).next else 0 in
    link (set_mutex k m (record { locked = 0; owner = u32_max; recursion = 0; next = next })) m

-- `JRT_MutexLock`; resumed, it returns `Wait.wait_result`.
unfoldable pub lock : Kernel → ℕ → ℕ → Deadline → Outcome
lock k m timeout deadline =
    let mutex = k.mutexes m in
    if k.in_isr
    then returned
        (count_context_misuse (λ c. record c { misuse_mutex_lock = add32 c.misuse_mutex_lock 1 }) k)
        0
    else (if mutex.locked == 0
        then returned
            (set_mutex k m (record mutex { locked = 1; owner = k.current; recursion = 1 })) 1
        else (if mutex.owner == k.current
            then returned (set_mutex k m (record mutex { recursion = add32 mutex.recursion 1 })) 1
            else (if timeout == 0
                then returned k 0
                else block_until_locked (inherit_priority k mutex.owner (current_task k).priority) m
                    WaitKind.mutex deadline)))

-- The last unlock of an owner: the mutex goes to the task that is woken, or becomes free.
unfoldable pub hand_over : Kernel → ℕ → ℕ → Kernel
hand_over woken m next_owner =
    let mutex = woken.mutexes m in
    set_mutex woken m (
      if next_owner != u32_max
      then record mutex { owner = next_owner; locked = 1; recursion = 1 }
      else record mutex { owner = u32_max; locked = 0; recursion = 0 })

-- `JRT_MutexUnlock` from the wake-up on.
unfoldable pub release : Kernel → ℕ → Kernel
release k m =
    let (woken, next_owner) = wake_get_id k m WaitKind.mutex in
    let restored = restore_priority (hand_over woken m next_owner) (k.mutexes m).owner in
    if next_owner != u32_max then restore_priority restored next_owner else restored

-- `JRT_MutexUnlock`
unfoldable pub unlock : Kernel → ℕ → Kernel × ℕ
unlock k m =
    let mutex = k.mutexes m in
    if k.in_isr
    then (
      count_context_misuse (λ c. record c { misuse_mutex_unlock = add32 c.misuse_mutex_unlock 1 })
          k,
      0,
    )
    else (if (mutex.locked == 0) || (mutex.owner != k.current)
        then (k, 0)
        else (if ltb 1 mutex.recursion
            then (set_mutex k m (record mutex { recursion = sub32 mutex.recursion 1 }), 1)
            else (release k m, 1)))
