-- ===== src/Tests/Measures.antt =====
-- The theorems on kernel/benchmark.c at concrete values.
use just_rt.Common.{◌*◌, ◌/◌, ◌≡◌, true, false, arith, leb, if◌then◌else◌, u32_max, List, [], ◌∷◌}
use just_rt.Benchmark.{cleared, period_to_cycles}
use just_rt.Benchmark.Divide.{period_to_cycles_lem}
use just_rt.Benchmark.Measured.{
  Hook, release, start, complete, run_hooks, observe_all, no_trace, Tells, run_hooks-cleared,
}

period_to_cycles_lem_example :
    period_to_cycles 160000000 1000 10
    ≡ (if leb (10 * 160000000 / 1000) u32_max then 10 * 160000000 / 1000 else 0)
period_to_cycles_lem_example =
    period_to_cycles_lem 160000000 1000 10 (omega arith) (omega arith) (omega arith) (omega arith)

-- Two releases before one start, across the wrap of the counter, then an activation of 30 cycles.
abbrev demo_hooks : List Hook
demo_hooks = release 4294967290 false ∷ release 3 true ∷ start 10 ∷ complete 40 ∷ []

run_hooks-cleared_example : Tells (run_hooks cleared demo_hooks) (observe_all no_trace demo_hooks)
run_hooks-cleared_example = run_hooks-cleared demo_hooks
