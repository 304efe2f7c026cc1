-- ===== src/Intrusive/Cycle.antt =====
-- The two-pointer test for a cycle.
use just_rt.Common.{
  ℕ, zero, suc, ◌+◌, ◌≤◌, ◌<◌, ◌≡◌, ◌≢◌, inl, inr, refl, ap, true, arith, Bool-cases, ◌==◌, ◌!=◌,
  ◌&&◌, List, [], ◌∷◌, length, none, some, ==→eq, subst, sym, ◌≡⟨◌⟩◌, ◌∎, ◌*◌, ◌-◌,
}
use native.Mathlib.Nat.{zero-add, suc-add}
use just_rt.Intrusive.{cycle_from}
use just_rt.Intrusive.Chain.{Chain, Chain-unique}

-- From two nodes of one null-terminated list, the fast one not behind, the pointers never meet.
cycle_from-none :
    (next : ℕ → ℕ) (slow fast fuel : ℕ) (ss fs : List ℕ)
    → Chain next slow ss
    → Chain next fast fs
    → length fs ≤ length ss
    → length fs < fuel
    → cycle_from next fuel slow fast ≡ some none
unfolding cycle_from
cycle_from-none next slow fast zero ss fs cs cf l h = absurd (omega arith)
cycle_from-none next slow fast (suc fuel) ss [] cs cf l h = rw cf
cycle_from-none next slow fast (suc fuel) ss (f ∷ []) cs (e, ne, z) l h = ground arith
cycle_from-none next slow fast (suc fuel) [] (f ∷ g ∷ fs) cs cf l h = absurd (omega arith)
cycle_from-none next slow fast (suc fuel) (s ∷ ss) (f ∷ g ∷ fs) (es, ns, cs) (ef, nf, (eg, ng, cf))
      l h =
    let moving : ((f != 0) && (g != 0)) ≡ true = ground arith in
    rw (es, ef, eg, moving)
      (elim (Bool-cases (next s == next g)) [
        | inl met ↦ absurd (
            omega (
              arith,
              ap length
                  (Chain-unique next (next g) ss fs (rw (==→eq (next s) (next g) met) at cs) cf),
            ))
        | inr apart ↦
            rw apart
              (cycle_from-none next (next s) (next g) fuel ss fs cs cf (omega arith) (omega arith))
      ])

-- On a null-terminated list the loop ends by its test and finds no cycle, if it has one round more
-- than there are nodes.
pub cycle_from_sound :
    (next : ℕ → ℕ) (head fuel : ℕ) (xs : List ℕ)
    → Chain next head xs
    → length xs < fuel
    → cycle_from next fuel head head ≡ some none
cycle_from_sound next head fuel xs c h =
    cycle_from-none next head head fuel xs xs c c (omega arith) h

-- The node that `n` links reach.
abbrev pub follow : (ℕ → ℕ) → ℕ → ℕ → ℕ
follow next zero p = p
follow next (suc n) p = follow next n (next p)

-- The node that `n` pairs of links reach.
abbrev follow_twice : (ℕ → ℕ) → ℕ → ℕ → ℕ
follow_twice next zero p = p
follow_twice next (suc n) p = follow_twice next n (next (next p))

-- If the pointers are at the same place after `n + 1` more rounds, and no link on the way is null,
-- the loop finds a meeting point.
cycle_from-some :
    (next : ℕ → ℕ) (n slow fast fuel : ℕ)
    → ((i : ℕ) → follow next i fast ≢ 0)
    → follow next (suc n) slow ≡ follow_twice next (suc n) fast
    → n < fuel
    → (p : ℕ) × (cycle_from next fuel slow fast ≡ some (some p))
unfolding cycle_from
cycle_from-some next n slow fast zero nonnull e h = absurd (omega arith)
cycle_from-some next zero slow fast (suc fuel) nonnull e h =
    let moving : ((fast != 0) && (next fast != 0)) ≡ true = ground (arith, nonnull 0, nonnull 1) in
    let met : (next slow == next (next fast)) ≡ true = ground arith in (next slow, rw (moving, met))
cycle_from-some next (suc n) slow fast (suc fuel) nonnull e h =
    let moving : ((fast != 0) && (next fast != 0)) ≡ true = ground (arith, nonnull 0, nonnull 1) in
    elim (Bool-cases (next slow == next (next fast))) [
      | inl met ↦ (next slow, rw (moving, met))
      | inr apart ↦
          let (p, found) =
            cycle_from-some next n (next slow) (next (next fast)) fuel (λ i. nonnull (suc (suc i)))
              e (omega arith) in
          (p, rw (moving, apart) found)
    ]

follow-add : (next : ℕ → ℕ) (a b p : ℕ) → follow next (a + b) p ≡ follow next b (follow next a p)
follow-add next zero b p = rw (zero-add b)
follow-add next (suc a) b p = rw (suc-add a b) (follow-add next a b (next p))

follow_twice-eq : (next : ℕ → ℕ) (n p : ℕ) → follow_twice next n p ≡ follow next (n + n) p
follow_twice-eq next zero p = refl
follow_twice-eq next (suc n) p =
    let e : suc n + suc n ≡ suc (suc (n + n)) = omega arith in
    rw e (follow_twice-eq next n (next (next p)))

follow_at : (next : ℕ → ℕ) (a b p : ℕ) → a ≡ b → follow next a p ≡ follow next b p
follow_at next a b p e = rw e

-- Past the entry of the cycle, `k` turns of its length come back.
follow-turns :
    (next : ℕ → ℕ) (entry turn p k extra : ℕ)
    → follow next (entry + turn) p ≡ follow next entry p
    → follow next (entry + extra + k * turn) p ≡ follow next (entry + extra) p
follow-turns next entry turn p zero extra e =
    follow_at next (entry + extra + 0 * turn) (entry + extra) p (omega arith)
follow-turns next entry turn p (suc k) extra e =
    follow next (entry + extra + suc k * turn) p
    ≡⟨ follow_at next (entry + extra + suc k * turn) (entry + turn + (extra + k * turn)) p
        (omega arith) ⟩
      follow next (entry + turn + (extra + k * turn)) p
    ≡⟨ follow-add next (entry + turn) (extra + k * turn) p ⟩
      follow next (extra + k * turn) (follow next (entry + turn) p)
    ≡⟨ ap (follow next (extra + k * turn)) e ⟩ follow next (extra + k * turn) (follow next entry p)
    ≡⟨ sym (follow-add next entry (extra + k * turn) p) ⟩ follow next (entry + (extra + k * turn)) p
    ≡⟨ follow_at next (entry + (extra + k * turn)) (entry + extra + k * turn) p (omega arith) ⟩
      follow next (entry + extra + k * turn) p
    ≡⟨ follow-turns next entry turn p k extra e ⟩ follow next (entry + extra) p ∎

-- After `n` rounds, `n` a multiple of the cycle's length and past its entry, the pointers meet.
follow_twice-meets :
    (next : ℕ → ℕ) (head entry turn n k : ℕ)
    → follow next (entry + turn) head ≡ follow next entry head
    → n ≡ k * turn
    → entry ≤ n
    → follow next n head ≡ follow_twice next n head
follow_twice-meets next head entry turn n k e m h =
    follow next n head
    ≡⟨ follow_at next n (entry + (n - entry)) head (omega arith) ⟩
      follow next (entry + (n - entry)) head
    ≡⟨ sym (follow-turns next entry turn head k (n - entry) e) ⟩
      follow next (entry + (n - entry) + k * turn) head
    ≡⟨ follow_at next (entry + (n - entry) + k * turn) (n + n) head (omega arith) ⟩
      follow next (n + n) head
    ≡⟨ sym (follow_twice-eq next n head) ⟩ follow_twice next n head ∎

-- On a list whose links never end, because `turn` links from the node that `entry` links reach
-- lead back to it, the loop reports a node, if it has `(entry + 1) * turn` rounds.
pub cycle_from_complete :
    (next : ℕ → ℕ) (head entry turn fuel : ℕ)
    → ((i : ℕ) → follow next i head ≢ 0)
    → follow next (entry + turn) head ≡ follow next entry head
    → 0 < turn
    → (entry + 1) * turn ≤ fuel
    → (p : ℕ) × (cycle_from next fuel head head ≡ some (some p))
cycle_from_complete next head entry turn fuel nonnull e pos h =
    let n : ℕ = (entry + 1) * turn in
    let past : entry + 1 ≤ n = grind arith in
    let rounds : suc (n - 1) ≡ n = omega arith in
    cycle_from-some next (n - 1) head head fuel nonnull
      (subst (λ m. follow next m head ≡ follow_twice next m head) (sym rounds)
        (follow_twice-meets next head entry turn n (entry + 1) e refl (omega arith)))
      (omega arith)
