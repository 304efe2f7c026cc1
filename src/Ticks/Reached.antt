-- ===== src/Ticks/Reached.antt =====
-- Signed comparison of tick counts of task.c across the wrap of the counter.
use just_rt.Common.{ℕ, ◌-◌, ◌≤◌, ◌<◌, ◌≡◌, ◌↔◌, true, none, some, arith, ltb, if◌then◌else◌, add32}
use just_rt.Ticks.{tick_reached, delay_until}

-- A deadline of `delay` ticks from `start` is reached after `elapsed` ticks just if the delay has
-- elapsed, if both are below 2 ^ 31, also where the counter wraps in between.
pub tick_reached_iff :
    (start delay elapsed : ℕ)
    → start < 4294967296
    → delay < 2147483648
    → elapsed < 2147483648
    → (tick_reached (add32 start elapsed) (add32 start delay) ≡ true) ↔ (delay ≤ elapsed)
unfolding tick_reached
tick_reached_iff start delay elapsed hs hd he = ground arith

-- `JRT_TaskDelayUntil` on a task that is `late` ticks into its period of `period` ticks, both below
-- 2 ^ 31: the next wake-up is one period after the previous one, and the task sleeps for what is
-- left of the period, not at all if nothing is left.
pub delay_until_lem :
    (previous period late : ℕ)
    → previous < 4294967296
    → period < 2147483648
    → late < 2147483648
    → delay_until (add32 previous late) previous period
      ≡ (add32 previous period, if ltb late period then some (period - late) else none)
unfolding delay_until tick_reached
delay_until_lem previous period late hp hd hl = ground arith
