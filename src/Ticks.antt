-- ===== src/Ticks.antt =====
-- Time: `JRT_MillisecondsToTicks` of arch/cortex_m/port_cm7.c, and `JRT_KernelTickReached` and
-- `JRT_TaskDelayUntil` of kernel/task.c.
pub mod Convert
pub mod Reached
use just_rt.Common.{
  ℕ, ◌+◌, ◌-◌, ◌*◌, ◌/◌, ◌%◌, Bool, not, Option, none, some, ltb, if◌then◌else◌, u32, u32_max,
  add32, sub32, nonneg32,
}

-- `JRT_MillisecondsToTicks`; `rate` is JRT_TICK_RATE_HZ.
unfoldable pub milliseconds_to_ticks : ℕ → ℕ → ℕ
milliseconds_to_ticks rate milliseconds =
    let whole_seconds = milliseconds / 1000 in
    let remaining_milliseconds = milliseconds % 1000 in
    let whole_ticks = u32 (whole_seconds * rate) in
    let fractional_ticks = u32 (remaining_milliseconds * (rate % 1000)) in
    let remaining_ticks =
      add32 (u32 (remaining_milliseconds * (rate / 1000))) (add32 fractional_ticks 999 / 1000) in
    if ltb (u32_max / rate) whole_seconds
    then u32_max
    else (if ltb (u32_max - remaining_ticks) whole_ticks
        then u32_max
        else add32 whole_ticks remaining_ticks)

-- `JRT_KernelTickReached` at the tick count `now`
unfoldable pub tick_reached : ℕ → ℕ → Bool
tick_reached now deadline = nonneg32 (sub32 now deadline)

-- `JRT_TaskDelayUntil`, with a place for the wake-up, at the tick count `now`: the new `*previous_wake`, and the argument of
-- `JRT_TaskDelay` if it is called.
unfoldable pub delay_until : ℕ → ℕ → ℕ → ℕ × Option ℕ
delay_until now previous_wake period =
    let next_wake = add32 previous_wake period in
    (next_wake, if tick_reached now next_wake then none else some (sub32 next_wake now))
