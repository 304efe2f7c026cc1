-- ===== src/Intrusive.antt =====
-- The walks over a list that is linked through `next` fields, which kernel/sync.c (mutexes) and
-- kernel/timer.c (timers) have in the same form: `mutex_is_linked_locked`,
-- `timer_is_linked_locked`, and the first loop of `sync_invariant_check` and
-- `timer_invariant_check`. `next` gives the field of the object at an address.
pub mod Chain
pub mod Cycle
use just_rt.Common.{
  ℕ, zero, suc, Bool, true, false, ◌&&◌, ◌||◌, Option, none, some, ◌==◌, ◌!=◌, if◌then◌else◌,
}

-- `while (current != 0U)`, with the rounds allowed.
unfoldable pub linked_from : (ℕ → ℕ) → ℕ → ℕ → ℕ → Bool
linked_from next object zero current = false
linked_from next object (suc fuel) current =
    if current == 0
    then false
    else (current == object || linked_from next object fuel (next current))

-- `while ((fast != 0U) && (fast->next != 0U))`, with the rounds allowed: `none` if they do not
-- suffice, else the meeting point if there is one.
unfoldable pub cycle_from : (ℕ → ℕ) → ℕ → ℕ → ℕ → Option (Option ℕ)
cycle_from next zero slow fast = none
cycle_from next (suc fuel) slow fast =
    let onward = cycle_from next fuel (next slow) (next (next fast)) in
    if (fast != 0) && (next fast != 0)
    then (if next slow == next (next fast) then some (some (next slow)) else onward)
    else some none
