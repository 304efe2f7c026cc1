-- ===== src/Timer/Registry.antt =====
-- The list of timers of timer.c: `timer_link_locked` keeps it a null-terminated list, and
-- `timer_invariant_check` over it.
use just_rt.Common.{
  ℕ, zero, suc, ◌+◌, ◌<◌, ◌≡◌, ◌≢◌, ◌⊎◌, inl, inr, refl, false, arith, if◌then◌else◌, update,
  Bool-cases, ==_refl, ==_of_ne, update_same, some, List, [], ◌∷◌, length, fun_ext,
}
use just_rt.Kernel.{Kernel}
use just_rt.Kernel.Objects
use just_rt.Kernel.InvariantCode
use just_rt.Intrusive.Chain.{Chain, contains, linked_from_lem, Chain-update}
use just_rt.Intrusive.Cycle.{cycle_from_sound}
use just_rt.Timer.{set_timer, is_linked, link, periodic_fault, scan_timers, timer_invariant_check}

-- `xs` are the timers of the list in the order of their links.
pub record Registered (k : Kernel) (xs : List ℕ) : Type 0 where
  pub chain : Chain (λ p. (k.timers p).next) k.timer_list xs
  pub counted : k.timer_nodes ≡ length xs

pub is_linked-contains :
    (k : Kernel) (p : ℕ) (xs : List ℕ) → Registered k xs → is_linked k p ≡ contains xs p
unfolding is_linked
is_linked-contains k p xs r =
    linked_from_lem (λ q. (k.timers q).next) p k.timer_list k.timer_nodes xs r.chain
      (omega (arith, r.counted))

next-set_timer :
    (k : Kernel) (p : ℕ) (v : Objects.Timer)
    → (λ q. ((set_timer k p v).timers q).next) ≡ update (λ q. (k.timers q).next) p v.next
next-set_timer k p v = fun_ext (λ q. ground arith)

-- Writing a timer that is not registered, or leaves its link.
pub set_timer-Registered :
    (k : Kernel) (p : ℕ) (v : Objects.Timer) (xs : List ℕ)
    → (contains xs p ≡ false) ⊎ (v.next ≡ (k.timers p).next)
    → Registered k xs
    → Registered (set_timer k p v) xs
set_timer-Registered k p v xs (inl new) r = record {
  chain =
      rw (next-set_timer k p v)
        (Chain-update (λ q. (k.timers q).next) k.timer_list p v.next xs new r.chain);
  counted = r.counted;
}
set_timer-Registered k p v xs (inr e) r = record {
  chain = rw (next-set_timer k p v, e, update_same (λ q. (k.timers q).next) p) r.chain;
  counted = r.counted;
}

-- The list after a timer is linked.
abbrev pub with_timer : List ℕ → ℕ → List ℕ
with_timer xs p = if contains xs p then xs else p ∷ xs

pub link-Registered :
    (k : Kernel) (p : ℕ) (xs : List ℕ)
    → p ≢ 0
    → Registered k xs
    → Registered (link k p) (with_timer xs p)
unfolding link
link-Registered k p xs h r = rw (is_linked-contains k p xs r) (elim (Bool-cases (contains xs p)) [
  | inl old ↦ rw old r
  | inr new ↦
      let linked =
        set_timer-Registered k p (record (k.timers p) { next = k.timer_list }) xs (inl new) r in
      rw new (record {
        chain = (refl, h, rw (==_refl p) linked.chain);
        counted = omega (arith, r.counted);
      })
])

-- The state that `timer_invariant_check` accepts: a timer has a period just if it is periodic.
abbrev pub PeriodOk : Objects.Timer → Type 0
PeriodOk t = periodic_fault t ≡ false

scan_timers-ok :
    (timers : ℕ → Objects.Timer) (fuel p : ℕ) (xs : List ℕ)
    → Chain (λ q. (timers q).next) p xs
    → length xs < fuel
    → ((q : ℕ) → PeriodOk (timers q))
    → scan_timers timers fuel p ≡ some (0, 0)
unfolding scan_timers
scan_timers-ok timers zero p xs c h v = absurd (omega arith)
scan_timers-ok timers (suc fuel) p [] c h v = rw c
scan_timers-ok timers (suc fuel) p (x ∷ xs) (e, ne, c) h v =
    rw (e, ==_of_ne x 0 ne, v x) (scan_timers-ok timers fuel (timers x).next xs c (omega arith) v)

-- `timer_invariant_check` ends and reports nothing, if the list of timers is null-terminated and
-- a timer has a period just if it is periodic.
pub timer_invariant_check-ok :
    (k : Kernel) (xs : List ℕ)
    → Registered k xs
    → ((p : ℕ) → PeriodOk (k.timers p))
    → timer_invariant_check k ≡ some (InvariantCode.ok, 0)
unfolding timer_invariant_check
timer_invariant_check-ok k xs r v =
    rw
      (
        cycle_from_sound (λ p. (k.timers p).next) k.timer_list (k.timer_nodes + 1) xs r.chain
            (omega (arith, r.counted)),
        timer_invariant_check,
      )
      (scan_timers-ok k.timers (k.timer_nodes + 1) k.timer_list xs r.chain
        (omega (arith, r.counted)) v)
