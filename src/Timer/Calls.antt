-- ===== src/Timer/Calls.antt =====
-- The calls that applications and the kernel make of timer.c, as steps of one machine, and what
-- every sequence of them keeps.
use just_rt.Common.{
  ℕ, ◌≡◌, ◌≢◌, ◌⊎◌, inl, inr, refl, true, false, arith, ◌==◌, ◌!=◌, ◌&&◌, ◌||◌, if◌then◌else◌,
  if_intro, update-All, Bool-cases, ==→ne, List, [], ◌∷◌, some,
}
use just_rt.Kernel.{Kernel, request_switch}
use just_rt.Kernel.Objects
use just_rt.Intrusive.Chain.{contains}
use just_rt.Timer.{
  set_timer, link, is_linked, service_wake, create, set_callback, armed, armed_periodic, start,
  start_periodic, restart, stop, take_expirations, periodic_fault, timer_invariant_check,
}
use just_rt.Timer.Registry.{
  Registered, PeriodOk, with_timer, set_timer-Registered, link-Registered, is_linked-contains,
  timer_invariant_check-ok,
}

-- A call of the timer interface, with its arguments.
pub data Call : Type 0 where
  create_static : ℕ → Call
  register : ℕ → ℕ → ℕ → Call
  start_once : ℕ → ℕ → Call
  start_repeating : ℕ → ℕ → Call
  start_again : ℕ → Call
  cancel : ℕ → Call
  collect : ℕ → Call

unfoldable pub perform : Kernel → Call → Kernel
perform k (create_static p) = create k p
perform k (register p callback argument) = set_callback k p callback argument
perform k (start_once p delay) = start k p delay
perform k (start_repeating p period) = start_periodic k p period
perform k (start_again p) = restart k p
perform k (cancel p) = stop k p
perform k (collect p) = (take_expirations k p).0

unfoldable pub perform_all : Kernel → List Call → Kernel
perform_all k [] = k
perform_all k (c ∷ cs) = perform_all (perform k c) cs

-- The list of timers is null-terminated and counted, and a timer has a period just if it is periodic.
abbrev pub TimersOk : Kernel → Type 0
TimersOk k = ((xs : List ℕ) × Registered k xs) × ((p : ℕ) → PeriodOk (k.timers p))

-- A write that keeps the link of the timer and its period in order.
pub set_timer-TimersOk :
    (k : Kernel) (p : ℕ) (v : Objects.Timer)
    → v.next ≡ (k.timers p).next
    → PeriodOk v
    → TimersOk k
    → TimersOk (set_timer k p v)
set_timer-TimersOk k p v e ok ((xs, r), all) =
    ((xs, set_timer-Registered k p v xs (inr e) r), update-All PeriodOk k.timers p v all ok)

link-TimersOk : (k : Kernel) (p : ℕ) → p ≢ 0 → TimersOk k → TimersOk (link k p)
unfolding link periodic_fault
link-TimersOk k p h ((xs, r), all) = ((with_timer xs p, link-Registered k p xs h r), linked)
  where
    linked : (q : ℕ) → PeriodOk ((link k p).timers q)
    linked q =
        if_intro (λ (k' : Kernel). PeriodOk (k'.timers q)) (is_linked k p) (λ _. all q)
          (λ _.
            update-All PeriodOk k.timers p (record (k.timers p) { next = k.timer_list }) all (all p)
              q)

create-TimersOk : (k : Kernel) (p : ℕ) → TimersOk k → TimersOk (create k p)
unfolding create periodic_fault
create-TimersOk k p ((xs, r), all) =
    if_intro TimersOk (p == 0) (λ _. ((xs, r), all))
      (λ nonnull. link-TimersOk (set_timer k p fresh) p (==→ne p 0 nonnull) (
        (xs, set_timer-Registered k p fresh xs (keeps (Bool-cases (contains xs p))) r),
        update-All PeriodOk k.timers p fresh all refl,
      ))
  where
    fresh : Objects.Timer
    fresh = record {
      deadline = 0;
      period = 0;
      reload_ticks = 0;
      expirations = 0;
      active = 0;
      periodic = 0;
      callback = 0;
      argument = 0;
      next = if is_linked k p then (k.timers p).next else 0;
    }

    keeps :
        (contains xs p ≡ true) ⊎ (contains xs p ≡ false)
        → (contains xs p ≡ false) ⊎ (fresh.next ≡ (k.timers p).next)
    keeps (inl old) = inr (rw (is_linked-contains k p xs r, old))
    keeps (inr new) = inl new

set_callback-TimersOk :
    (k : Kernel) (p callback argument : ℕ)
    → TimersOk k
    → TimersOk (set_callback k p callback argument)
unfolding set_callback periodic_fault
set_callback-TimersOk k p callback argument v =
    if_intro TimersOk (p == 0) (λ _. v)
      (λ _.
        if_intro TimersOk ((callback != 0) && ((k.timers p).expirations != 0))
          (λ _. woken (set_timer k p registered) set) (λ _. set))
  where
    registered : Objects.Timer
    registered = record (k.timers p) { callback = callback; argument = argument }

    set : TimersOk (set_timer k p registered)
    set = set_timer-TimersOk k p registered refl (v.1 p) v

    woken : (k' : Kernel) → TimersOk k' → TimersOk (request_switch (service_wake k'))
    woken k' ((xs, r), all) = ((xs, record { chain = r.chain; counted = r.counted }), all)

start-TimersOk : (k : Kernel) (p delay : ℕ) → TimersOk k → TimersOk (start k p delay)
unfolding start armed periodic_fault
start-TimersOk k p delay v =
    if_intro TimersOk (p == 0) (λ _. v)
      (λ nonnull.
        set_timer-TimersOk (link k p) p (armed ((link k p).timers p) k.ticks delay) refl refl
          (link-TimersOk k p (==→ne p 0 nonnull) v))

start_periodic-TimersOk :
    (k : Kernel) (p period : ℕ) → TimersOk k → TimersOk (start_periodic k p period)
unfolding start_periodic armed_periodic periodic_fault
start_periodic-TimersOk k p period v =
    if_intro TimersOk ((p == 0) || (period == 0)) (λ _. v)
      (λ valid.
        set_timer-TimersOk (link k p) p (armed_periodic ((link k p).timers p) k.ticks period) refl
          (ground (arith, valid)) (link-TimersOk k p (ground (arith, valid)) v))

restart-TimersOk : (k : Kernel) (p : ℕ) → TimersOk k → TimersOk (restart k p)
unfolding restart periodic_fault
restart-TimersOk k p v =
    if_intro TimersOk ((p == 0) || ((k.timers p).reload_ticks == 0)) (λ _. v)
      (λ valid.
        let linked = link-TimersOk k p (ground (arith, valid)) v in
        set_timer-TimersOk (link k p) p _ refl (linked.1 p) linked)

stop-TimersOk : (k : Kernel) (p : ℕ) → TimersOk k → TimersOk (stop k p)
unfolding stop periodic_fault
stop-TimersOk k p v =
    if_intro TimersOk (p == 0) (λ _. v) (λ _. set_timer-TimersOk k p _ refl (v.1 p) v)

take_expirations-TimersOk : (k : Kernel) (p : ℕ) → TimersOk k → TimersOk (take_expirations k p).0
unfolding take_expirations periodic_fault
take_expirations-TimersOk k p v =
    if_intro (λ (o : Kernel × ℕ). TimersOk o.0) (p == 0) (λ _. v)
      (λ _. set_timer-TimersOk k p _ refl (v.1 p) v)

pub perform-TimersOk : (k : Kernel) (c : Call) → TimersOk k → TimersOk (perform k c)
unfolding perform
perform-TimersOk k (create_static p) v = create-TimersOk k p v
perform-TimersOk k (register p callback argument) v = set_callback-TimersOk k p callback argument v
perform-TimersOk k (start_once p delay) v = start-TimersOk k p delay v
perform-TimersOk k (start_repeating p period) v = start_periodic-TimersOk k p period v
perform-TimersOk k (start_again p) v = restart-TimersOk k p v
perform-TimersOk k (cancel p) v = stop-TimersOk k p v
perform-TimersOk k (collect p) v = take_expirations-TimersOk k p v

perform_all-TimersOk : (k : Kernel) (cs : List Call) → TimersOk k → TimersOk (perform_all k cs)
unfolding perform_all
perform_all-TimersOk k [] v = v
perform_all-TimersOk k (c ∷ cs) v = perform_all-TimersOk (perform k c) cs (perform-TimersOk k c v)

-- From a kernel whose timer list is null-terminated and counted and where a timer has a period just
-- if it is periodic, after any sequence of timer calls, whatever their arguments,
-- `timer_invariant_check` still ends and reports nothing.
pub perform_all-timer_invariant_check :
    (k : Kernel) (cs : List Call)
    → TimersOk k
    → timer_invariant_check (perform_all k cs) ≡ some (0, 0)
perform_all-timer_invariant_check k cs v =
    let ((xs, r), all) = perform_all-TimersOk k cs v in
    timer_invariant_check-ok (perform_all k cs) xs r all
