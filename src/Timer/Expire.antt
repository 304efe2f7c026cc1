-- ===== src/Timer/Expire.antt =====
-- `kernel_timer_tick` of timer.c over the whole list of timers.
use just_rt.Common.{
  ◌!=◌, true, sub32, ℕ, zero, suc, ◌≤◌, ◌≡◌, inl, inr, refl, false, arith, ◌==◌, if◌then◌else◌,
  Bool-cases, ==_refl, ==_of_ne, ==→eq, List, [], ◌∷◌, length, ap, ◌∙◌, ◌||◌, if_intro, fun_ext,
  ◌%◌, ◌<◌, ◌⊎◌, ◌≢◌, ◌+◌, subst, sym,
}
use just_rt.Kernel.{Kernel}
use just_rt.Kernel.Objects
use just_rt.Intrusive.Chain.{Chain, contains, Chain-apart}
use just_rt.Timer.{due, fire, tick_timer, tick_from, timer_tick}
use just_rt.Timer.Registry.{Registered}

-- A timer keeps its place in the list.
pub fire-next : (now : ℕ) (t : Objects.Timer) → (fire now t).next ≡ t.next
unfolding fire
fire-next now t = ground arith

abbrev links : (ℕ → Objects.Timer) → ℕ → ℕ
links timers q = (timers q).next

links-tick_timer : (k : Kernel) (p : ℕ) → links (tick_timer k p).timers ≡ links k.timers
unfolding tick_timer
links-tick_timer k p = fun_ext (λ q. ap (λ (t : Objects.Timer). t.next) (fired q) ∙ same q)
  where
    fired :
        (q : ℕ)
        → (tick_timer k p).timers q ≡ (if q == p then fire k.ticks (k.timers p) else k.timers q)
    fired q = refl

    same :
        (q : ℕ)
        → (if q == p then fire k.ticks (k.timers p) else k.timers q).next ≡ (k.timers q).next
    same q =
        if_intro (λ (t : Objects.Timer). t.next ≡ (k.timers q).next) (q == p)
          (λ e. rw (==→eq q p e) (fire-next k.ticks (k.timers p))) (λ _. refl)

-- One round, where the timer is not in the rest of the list.
tick_timer-once :
    (k : Kernel) (x : ℕ) (xs : List ℕ) (q : ℕ)
    → contains xs x ≡ false
    → (if contains xs q
        then fire (tick_timer k x).ticks ((tick_timer k x).timers q)
        else (tick_timer k x).timers q)
      ≡ (if x == q || contains xs q then fire k.ticks (k.timers q) else k.timers q)
unfolding tick_timer
tick_timer-once k x xs q apart = elim (Bool-cases (q == x)) [
  | inl e ↦ rw (==→eq q x e, apart, ==_refl x)
  | inr e ↦ let e' : (x == q) ≡ false = ground arith in rw (e, e')
]

tick_from_lem :
    (fuel : ℕ) (k : Kernel) (p : ℕ) (xs : List ℕ) (q : ℕ)
    → Chain (links k.timers) p xs
    → length xs ≤ fuel
    → (tick_from fuel k p).timers q
      ≡ (if contains xs q then fire k.ticks (k.timers q) else k.timers q)
unfolding tick_from
tick_from_lem zero k p [] q c h = refl
tick_from_lem (suc fuel) k p [] q c h = rw c
tick_from_lem zero k p (x ∷ xs) q c h = absurd (omega arith)
tick_from_lem (suc fuel) k p (x ∷ xs) q (e, ne, c) h =
    let k' : Kernel = tick_timer k x in
    let same : links k'.timers ≡ links k.timers = links-tick_timer k x in
    let onward : Chain (links k'.timers) (links k'.timers x) xs = rw same c in
    rw (e, ==_of_ne x 0 ne)
      (tick_from_lem fuel k' (links k'.timers x) xs q onward (omega arith)
        ∙ tick_timer-once k x xs q (Chain-apart (links k.timers) x x xs (refl, ne, c)))

timer_tick-fire :
    (k : Kernel) (xs : List ℕ) (q : ℕ)
    → Registered k xs
    → (timer_tick k).timers q ≡ (if contains xs q then fire k.ticks (k.timers q) else k.timers q)
unfolding timer_tick
timer_tick-fire k xs q r =
    tick_from_lem k.timer_nodes k k.timer_list xs q r.chain (omega (arith, r.counted))

-- The ticks from a deadline to now, across the wrap of the counter: below 2 ^ 31 once the deadline
-- has been reached.
abbrev since : ℕ → ℕ → ℕ
since now deadline = sub32 now deadline

-- How a tick leaves a timer `t`: as it is, if it is stopped or its deadline is ahead; with one more
-- expiration and the next deadline, if it is periodic; with one more expiration, stopped, if not.
pub data TickedTimer (now : ℕ) (t t' : Objects.Timer) : Type 0 where
  waiting : (t.active ≡ 0) ⊎ (2147483648 ≤ since now t.deadline) → t' ≡ t → TickedTimer now t t'
  periodic :
      t.active ≢ 0
      → since now t.deadline < 2147483648
      → t.periodic ≢ 0
      → t' ≡ record t {
        expirations = (t.expirations + 1) % 4294967296;
        deadline = (t.deadline + t.period) % 4294967296;
      }
      → TickedTimer now t t'
  one_shot :
      t.active ≢ 0
      → since now t.deadline < 2147483648
      → t.periodic ≡ 0
      → t' ≡ record t { expirations = (t.expirations + 1) % 4294967296; active = 0 }
      → TickedTimer now t t'

fire-TickedTimer : (now : ℕ) (t : Objects.Timer) → TickedTimer now t (fire now t)
unfolding fire due
fire-TickedTimer now t = elim (Bool-cases (due now t)) [
  | inr kept ↦ waiting (ground (arith, kept)) (rw kept refl)
  | inl reached ↦ elim (Bool-cases (t.periodic != 0)) [
    | inl again ↦
        periodic (ground (arith, reached)) (ground (arith, reached)) (ground (arith, again))
          (rw (reached, again) refl)
    | inr once ↦
        one_shot (ground (arith, reached)) (ground (arith, reached)) (ground (arith, once))
          (rw (reached, once) refl)
  ]
]

-- `kernel_timer_tick`, where the list of timers is null-terminated and counted, steps each timer of
-- the list exactly once and changes no other: a timer that is stopped, or whose deadline is ahead by
-- the sign of the 32-bit difference, keeps every field; a due periodic timer counts one expiration
-- and moves its deadline by its period, both modulo 2 ^ 32; a due one-shot timer counts one
-- expiration and stops.
pub timer_tick-TickedTimer :
    (k : Kernel) (xs : List ℕ) (q : ℕ)
    → Registered k xs
    → ((contains xs q ≡ true) × TickedTimer k.ticks (k.timers q) ((timer_tick k).timers q))
      ⊎ ((contains xs q ≡ false) × ((timer_tick k).timers q ≡ k.timers q))
timer_tick-TickedTimer k xs q r = elim (Bool-cases (contains xs q)) [
  | inl listed ↦
      let e : (timer_tick k).timers q ≡ fire k.ticks (k.timers q) =
        timer_tick-fire k xs q r ∙ rw listed refl in
      inl (
        listed,
        subst (TickedTimer k.ticks (k.timers q)) (sym e) (fire-TickedTimer k.ticks (k.timers q)),
      )
  | inr absent ↦ inr (absent, timer_tick-fire k xs q r ∙ rw absent refl)
]
