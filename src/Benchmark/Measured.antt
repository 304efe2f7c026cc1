-- ===== src/Benchmark/Measured.antt =====
-- What the records of kernel/benchmark.c measure, over any sequence of the kernel's hooks.
use just_rt.Common.{
  ℕ, ◌+◌, ◌-◌, ◌%◌, ◌<◌, ◌≡◌, refl, Bool, true, false, arith, ltb, ◌==◌, ◌!=◌, ◌||◌, if◌then◌else◌,
  add32, sub32, List, [], ◌∷◌, length,
}
use just_rt.Benchmark.{
  some, none, Option, Record, cleared, released, started, completed, pending_count,
}

-- A hook for one task, with the cycle count at which it runs; `join` is a coalesced release that is
-- only counted.
pub data Hook : Type 0 where
  release : ℕ → Bool → Hook
  start : ℕ → Hook
  complete : ℕ → Hook
  join : Hook

unfoldable pub run_hook : Record → Hook → Record
run_hook r (release now coalesced) = released r now coalesced
run_hook r (start now) = started r now
run_hook r (complete now) = completed r now
run_hook r join = record r { coalesced_count = add32 r.coalesced_count 1 }

-- The record after the hooks, in the order in which they run.
unfoldable pub run_hooks : Record → List Hook → Record
run_hooks r [] = r
run_hooks r (h ∷ hs) = run_hooks (run_hook r h) hs

-- The response of one task, told without a record: the cycle of the oldest release that has not
-- started, the cycle at which the task started, and what was measured, the latest first.
pub record Trace : Type 0 where
  pub waiting : Option ℕ
  pub running : Option ℕ
  pub latencies : List ℕ
  pub durations : List ℕ
  pub releases : ℕ

abbrev pub no_trace : Trace
no_trace = record { waiting = none; running = none; latencies = []; durations = []; releases = 0 }

-- A release opens a wait unless one is open; a start closes it and opens an activation unless one
-- is open; a completion closes the activation.
unfoldable pub observe : Trace → Hook → Trace
observe t (release now coalesced) = record t {
  waiting = elim t.waiting [ none ↦ some now | some first ↦ some first ];
  releases = t.releases + 1;
}
observe t (start now) = elim t.running [
  | some since ↦ t
  | none ↦ elim t.waiting [
    | none ↦ t
    | some first ↦ record t {
      waiting = none;
      running = some now;
      latencies = sub32 now first ∷ t.latencies;
    }
  ]
]
observe t (complete now) = elim t.running [
  | none ↦ t
  | some since ↦ record t { running = none; durations = sub32 now since ∷ t.durations }
]
observe t join = t

unfoldable pub observe_all : Trace → List Hook → Trace
observe_all t [] = t
observe_all t (h ∷ hs) = observe_all (observe t h) hs

unfoldable pub largest : List ℕ → ℕ
largest [] = 0
largest (x ∷ xs) = if ltb (largest xs) x then x else largest xs

-- A flag and a cycle of the record stand for an optional cycle.
abbrev Flagged : ℕ → ℕ → Option ℕ → Type 0
Flagged flag cycle none = flag ≡ 0
Flagged flag cycle (some first) = (flag ≡ 1) × (cycle ≡ first)

-- The record holds what the trace tells, the counts modulo 2 ^ 32.
pub record Tells (r : Record) (t : Trace) : Type 0 where
  pub waiting : Flagged r.release_pending r.release_cycle t.waiting
  pub running : Flagged r.activation_active r.activation_start_cycle t.running
  pub latency : r.max_release_latency_cycles ≡ largest t.latencies
  pub duration : r.max_activation_cycles ≡ largest t.durations
  pub completions : r.completion_count ≡ length t.durations % 4294967296
  pub releases : r.release_count ≡ t.releases % 4294967296

module _ (r : Record) (now : ℕ) (latencies durations : List ℕ) (releases : ℕ) where
  abbrev trace : Option ℕ → Option ℕ → Trace
  trace waiting running = record {
    waiting = waiting;
    running = running;
    latencies = latencies;
    durations = durations;
    releases = releases;
  }

  released-Tells :
      (coalesced : Bool) (waiting running : Option ℕ)
      → Tells r (trace waiting running)
      → Tells (released r now coalesced) (observe (trace waiting running) (release now coalesced))
  unfolding observe released
  released-Tells coalesced none running v =
      rw (released, v.waiting)
        (record {
          waiting = (refl, refl);
          running = v.running;
          latency = v.latency;
          duration = v.duration;
          completions = v.completions;
          releases = omega (arith, v.releases);
        })
  released-Tells coalesced (some first) running v =
      rw (released, v.waiting.0)
        (record {
          waiting = (refl, v.waiting.1);
          running = v.running;
          latency = v.latency;
          duration = v.duration;
          completions = v.completions;
          releases = omega (arith, v.releases);
        })

  started-Tells :
      (waiting running : Option ℕ)
      → Tells r (trace waiting running)
      → Tells (started r now) (observe (trace waiting running) (start now))
  unfolding observe started largest
  started-Tells waiting (some since) v =
      let busy : ((r.release_pending == 0) || (r.activation_active != 0)) ≡ true =
        ground (arith, v.running.0) in
      rw (started, busy) v
  started-Tells none none v =
      let nothing : ((r.release_pending == 0) || (r.activation_active != 0)) ≡ true =
        ground (arith, v.waiting) in
      rw (started, nothing) v
  started-Tells (some first) none v =
      let begins : ((r.release_pending == 0) || (r.activation_active != 0)) ≡ false =
        ground (arith, v.running, v.waiting.0) in
      rw (started, begins)
        (record {
          waiting = refl;
          running = (refl, refl);
          latency = rw (v.latency, v.waiting.1) refl;
          duration = v.duration;
          completions = v.completions;
          releases = v.releases;
        })

  completed-Tells :
      (waiting running : Option ℕ)
      → Tells r (trace waiting running)
      → Tells (completed r now) (observe (trace waiting running) (complete now))
  unfolding observe completed largest
  completed-Tells waiting none v =
      let nothing : (r.activation_active == 0) ≡ true = ground (arith, v.running) in
      rw (completed, nothing) v
  completed-Tells waiting (some since) v =
      let ends : (r.activation_active == 0) ≡ false = ground (arith, v.running.0) in
      rw (completed, ends)
        (record {
          waiting = v.waiting;
          running = refl;
          latency = v.latency;
          duration = rw (v.duration, v.running.1) refl;
          completions = omega (arith, v.completions);
          releases = v.releases;
        })

run_hook-Tells :
    (r : Record) (t : Trace) (h : Hook) → Tells r t → Tells (run_hook r h) (observe t h)
unfolding run_hook observe
run_hook-Tells r t (release now coalesced) v =
    released-Tells r now t.latencies t.durations t.releases coalesced t.waiting t.running v
run_hook-Tells r t (start now) v =
    started-Tells r now t.latencies t.durations t.releases t.waiting t.running v
run_hook-Tells r t (complete now) v =
    completed-Tells r now t.latencies t.durations t.releases t.waiting t.running v
run_hook-Tells r t join v = record {
  waiting = v.waiting;
  running = v.running;
  latency = v.latency;
  duration = v.duration;
  completions = v.completions;
  releases = v.releases;
}

run_hooks-Tells :
    (r : Record) (t : Trace) (hs : List Hook)
    → Tells r t
    → Tells (run_hooks r hs) (observe_all t hs)
unfolding run_hooks observe_all
run_hooks-Tells r t [] v = v
run_hooks-Tells r t (h ∷ hs) v =
    run_hooks-Tells (run_hook r h) (observe t h) hs (run_hook-Tells r t h v)

-- After any sequence of releases, coalesced releases, starts and completions of a task, from a cleared record on, the
-- record shows the largest time from a release to its start, where a release that finds another
-- one waiting shares its start, the largest time from a start to its completion, and, modulo
-- 2 ^ 32, the numbers of releases and of completions; the times are differences modulo 2 ^ 32.
pub run_hooks-cleared : (hs : List Hook) → Tells (run_hooks cleared hs) (observe_all no_trace hs)
unfolding largest
run_hooks-cleared hs = run_hooks-Tells cleared no_trace hs (record {
  waiting = refl;
  running = refl;
  latency = refl;
  duration = refl;
  completions = refl;
  releases = refl;
})

-- The pending releases that the benchmark reports are the releases less the completions and the
-- coalesced ones, and 0 where that is negative.
pub pending_count_lem :
    (r : Record)
    → r.release_count < 4294967296
    → r.completion_count < 4294967296
    → r.coalesced_count < 4294967296
    → pending_count r ≡ r.release_count - r.completion_count - r.coalesced_count
unfolding pending_count
pending_count_lem r hr hc hj = ground arith
