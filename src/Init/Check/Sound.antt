-- ===== src/Init/Check/Sound.antt =====
-- The loops and the single tests of the configuration in task.c, against arithmetic without a bound.
use Prim.Native.Nat.{bit_and}
use just_rt.Common.{
  ℕ, zero, suc, ◌+◌, ◌-◌, ◌<◌, ◌≤◌, ◌≡◌, inl, inr, refl, sym, ap, ◌∙◌, Bool, true, false, ◌||◌,
  arith, ltb, ◌==◌, ◌!=◌, if◌then◌else◌, Bool-cases, ==→eq, sub32,
}
use just_rt.Kernel.Status.{Status}
use just_rt.Init.Config.{TaskDefinition, Build, stack_end}
use just_rt.Init.Check.{
  stack_misplaced, ranges_overlap, any_from, is_unprivileged, private_end, region_misplaced,
  region_outside, is_ok, first_error,
}
use just_rt.Init.Check.Valid.{
  Words, stack_limit, region_limit, Disjoint, StackOk, RegionOk, BuildOk,
}

-- A loop that returns at a test that holds goes through just if the test fails everywhere.
pub any_from-false :
    (test : ℕ → Bool) (rounds index : ℕ)
    → any_from test rounds index ≡ false
    → (i : ℕ) → index ≤ i
    → i < index + rounds
    → test i ≡ false
unfolding any_from
any_from-false test zero index h i a l = absurd (omega arith)
any_from-false test (suc rounds) index h i a l = elim (Bool-cases (i == index)) [
  | inl e ↦ ground arith
  | inr ne ↦ any_from-false test rounds (index + 1) (ground arith) i (ground arith) (omega arith)
]

pub any_from-none :
    (test : ℕ → Bool) (rounds index : ℕ)
    → ((i : ℕ) → index ≤ i → i < index + rounds → test i ≡ false)
    → any_from test rounds index ≡ false
unfolding any_from
any_from-none test zero index h = refl
any_from-none test (suc rounds) index h =
    rw (h index (omega arith) (omega arith))
      (any_from-none test rounds (index + 1) (λ i a l. h i (omega arith) (omega arith)))

pub ok_both :
    (s rest : Status)
    → (if is_ok s then rest else s) ≡ Status.ok
    → (s ≡ Status.ok) × (rest ≡ Status.ok)
ok_both Status.ok rest h = (refl, h)
ok_both _ rest h = cc

pub first_error-ok :
    (check : ℕ → Status) (rounds index : ℕ)
    → first_error check rounds index ≡ Status.ok
    → (i : ℕ) → index ≤ i
    → i < index + rounds
    → check i ≡ Status.ok
unfolding first_error
first_error-ok check zero index h i a l = absurd (omega arith)
first_error-ok check (suc rounds) index h i a l =
    let (first, rest) = ok_both (check index) (first_error check rounds (index + 1)) h in
    elim (Bool-cases (i == index)) [
      | inl e ↦ rw (==→eq i index e) first
      | inr ne ↦ first_error-ok check rounds (index + 1) rest i (ground arith) (omega arith)
    ]

pub first_error-all :
    (check : ℕ → Status) (rounds index : ℕ)
    → ((i : ℕ) → index ≤ i → i < index + rounds → check i ≡ Status.ok)
    → first_error check rounds index ≡ Status.ok
unfolding first_error
first_error-all check zero index h = refl
first_error-all check (suc rounds) index h =
    rw (h index (omega arith) (omega arith))
      (first_error-all check rounds (index + 1) (λ i a l. h i (omega arith) (omega arith)))

module _ (b : Build) (d : TaskDefinition) (w : Words d) where
  pub stack_placed :
      stack_misplaced b d ≡ false → ltb (stack_end d) d.stack_buffer ≡ false → StackOk b d
  unfolding stack_misplaced
  stack_placed p q = ground arith

  pub stack_not_misplaced :
      StackOk b d → (stack_misplaced b d ≡ false) × (ltb (stack_end d) d.stack_buffer ≡ false)
  unfolding stack_misplaced
  stack_not_misplaced s = ground arith

  pub stack_end-limit : StackOk b d → stack_end d ≡ stack_limit d
  stack_end-limit s = omega arith

  region_bits :
      (m : ℕ)
      → ((d.private_data_base == 0)
          || ltb d.private_data_size 32
          || (bit_and d.private_data_size m != 0)
          || (bit_and d.private_data_base m != 0)
          || (if is_unprivileged d.flags then false else true))
        ≡ false
      → region_outside b d ≡ false
      → m ≡ d.private_data_size - 1
      → RegionOk b d
  unfolding region_outside
  region_bits m p q e =
      let whole : bit_and d.private_data_size m ≡ 0 = ground arith in
      let start : bit_and d.private_data_base m ≡ 0 = ground arith in
      record {
        placed = ground arith;
        large = ground arith;
        power = ap (bit_and d.private_data_size) (sym e) ∙ whole;
        aligned = ap (bit_and d.private_data_base) (sym e) ∙ start;
        unprivileged = ground arith;
        after_start = ground arith;
        before_end = ground arith;
        fits = ground arith;
      }

  pub region_placed : region_misplaced d ≡ false → region_outside b d ≡ false → RegionOk b d
  unfolding region_misplaced region_outside
  region_placed p q =
      let large : 32 ≤ d.private_data_size = ground arith in
      let less : sub32 d.private_data_size 1 ≡ d.private_data_size - 1 = omega arith in
      region_bits (sub32 d.private_data_size 1) p q less

  pub region_not_misplaced :
      BuildOk b → RegionOk b d → (region_misplaced d ≡ false) × (region_outside b d ≡ false)
  unfolding region_misplaced region_outside
  region_not_misplaced o r =
      let less : sub32 d.private_data_size 1 ≡ d.private_data_size - 1 = omega (arith, r.large) in
      rw less (ground (arith, r.power, r.aligned))

  pub private_end-limit : RegionOk b d → private_end d ≡ region_limit d
  private_end-limit r = omega arith

pub Disjoint-overlap : (a a' b b' : ℕ) → ranges_overlap a a' b b' ≡ false → Disjoint a a' b b'
unfolding ranges_overlap
Disjoint-overlap a a' b b' h = ground arith

pub overlap-Disjoint : (a a' b b' : ℕ) → Disjoint a a' b b' → ranges_overlap a a' b b' ≡ false
unfolding ranges_overlap
overlap-Disjoint a a' b b' h = ground arith
