-- ===== src/Tests/Timers.antt =====
-- Timers of timer.c and pools of mempool.c at concrete states.
use just_rt.Common.{false, ℕ, ◌<◌, ◌≡◌, ◌≢◌, ◌⊎◌, refl, true, arith, [], ◌∷◌, update}
use just_rt.Kernel.{Kernel}
use just_rt.Kernel.Objects.{Timer}
use just_rt.Timer.{timer_tick, fire, due, timer_invariant_check, periodic_fault}
use just_rt.Timer.Registry.{Registered}
use just_rt.Timer.Expire.{TickedTimer, timer_tick-TickedTimer}
use just_rt.Timer.Calls.{TimersOk}
use just_rt.MemoryPool.{MemoryPool, allocate, free, is_used, find_free, block_index}
use just_rt.MemoryPool.Bits.{test_bit, set_bit}
use just_rt.MemoryPool.Blocks.{PoolOk, Allocated, allocate_lem}
use just_rt.MemoryPool.Cycle.{free-allocate, free-free, allocate-allocate}
use just_rt.Intrusive.Chain.{contains}
use just_rt.Tests.Fixture.{demo, idle_timer}

-- A periodic timer at 40, due at the current tick 7, and a stopped one at 44.
abbrev periodic_timer : Timer
periodic_timer = record idle_timer {
  deadline = 7;
  period = 5;
  reload_ticks = 5;
  active = 1;
  periodic = 1;
  next = 44;
}

abbrev timed : Kernel
timed = record demo {
  timers = update demo.timers 40 periodic_timer;
  timer_list = 40;
  timer_nodes = 2;
}

timed-Registered : Registered timed (40 ∷ 44 ∷ [])
timed-Registered = omega arith

timer_tick-timed : ((timer_tick timed).timers 40).deadline ≡ 12
unfolding timer_tick fire due just_rt.Timer.tick_from just_rt.Timer.tick_timer
timer_tick-timed = refl

-- The same list with a one-shot timer that is due at 44.
abbrev once_timed : Kernel
once_timed = record timed {
  timers =
      update timed.timers 44 (record idle_timer { deadline = 6; reload_ticks = 3; active = 1 });
}

timer_tick-once : ((timer_tick once_timed).timers 44).active ≡ 0
unfolding timer_tick fire due just_rt.Timer.tick_from just_rt.Timer.tick_timer
timer_tick-once = refl

timer_tick-TickedTimer_example :
    ((contains (40 ∷ 44 ∷ []) 40 ≡ true)
      × TickedTimer 7 periodic_timer ((timer_tick timed).timers 40))
    ⊎ ((contains (40 ∷ 44 ∷ []) 40 ≡ false) × ((timer_tick timed).timers 40 ≡ periodic_timer))
timer_tick-TickedTimer_example = timer_tick-TickedTimer timed (40 ∷ 44 ∷ []) 40 timed-Registered

demo-TimersOk : TimersOk demo
unfolding periodic_fault
demo-TimersOk = (([], record { chain = refl; counted = refl }), λ p. refl)

-- Three blocks of 8 bytes, of which the first is in use.
abbrev pool : MemoryPool
pool = record { storage = 5000; used_bitmap = 6000; block_size = 8; block_count = 3 }

abbrev words : ℕ → ℕ
words = update (λ _. 0) 6000 1

pool-PoolOk : PoolOk pool
pool-PoolOk = omega arith

allocate-pool : (allocate pool words).1 ≡ 5008
unfolding allocate find_free is_used test_bit
allocate-pool = refl

allocate-pool_again : (allocate pool (allocate pool words).0).1 ≡ 5016
unfolding allocate find_free is_used test_bit set_bit just_rt.MemoryPool.mark
allocate-pool_again = refl

allocate_lem_example :
    ((index : ℕ) × Allocated pool words index)
    ⊎ ((allocate pool words ≡ (words, 0)) × ((i : ℕ) → i < 3 → is_used pool words i ≡ true))
allocate_lem_example = allocate_lem pool words pool-PoolOk

free-allocate_example : free pool (allocate pool words).0 (allocate pool words).1 ≡ (words, 1)
free-allocate_example = free-allocate pool words pool-PoolOk (omega (arith, allocate-pool))

free-pool : (free pool words 5000).1 ≡ 1
unfolding free block_index is_used test_bit
free-pool = refl

free-free_example : free pool (free pool words 5000).0 5000 ≡ ((free pool words 5000).0, 0)
free-free_example = free-free pool words 5000 free-pool

allocate-allocate_example : (allocate pool words).1 ≢ (allocate pool (allocate pool words).0).1
allocate-allocate_example =
    allocate-allocate pool words pool-PoolOk (omega (arith, allocate-pool))
      (omega (arith, allocate-pool_again))
