-- ===== src/Sched/Choice.antt =====
-- The task that the two passes of `pendsv_switch` of task.c choose.
use just_rt.Common.{
  ℕ, zero, suc, ◌+◌, ◌-◌, ◌<◌, ◌≤◌, ◌≡◌, ◌≢◌, ◌⊎◌, inl, inr, refl, arith, some, subst, sym,
}
use native.Mathlib.Nat.{mod-eq_of_lt}
use native.Mathlib.Decide.{dec_lt}
use just_rt.Kernel.{Task}
use just_rt.Kernel.TaskState
use just_rt.Sched.{index_at, best_priority, select_offset, next_index}
use just_rt.Sched.Passes.{best_priority-IsMax, find_scan_cases}

-- Every index is at some offset from the current one.
offset_of :
    (task_count base j : ℕ)
    → base < task_count
    → j < task_count
    → (o : ℕ) × (o < task_count) × (index_at task_count base o ≡ j)
offset_of task_count base j hb hj = elim (dec_lt j base) [
  | yes l ↦
      let e : base + (j + task_count - base) ≡ j + task_count = omega arith in
      (j + task_count - base, omega arith, rw e (grind arith))
  | no g ↦
      let e : base + (j - base) ≡ j = omega arith in (j - base, omega arith, rw e (mod-eq_of_lt hj))
]

-- The offsets 0 and `task_count` are the same place.
index_at-task_count :
    (task_count base : ℕ)
    → base < task_count
    → index_at task_count base task_count ≡ index_at task_count base 0
index_at-task_count task_count base h =
    let e : base + 0 ≡ base = omega arith in rw (e, mod-eq_of_lt h) (grind arith)

-- Task `s` is ready, no ready task has a higher priority, and it is the first one of its priority
-- in the round that starts behind `base`.
pub record Chosen (tasks : ℕ → Task) (task_count base s offset : ℕ) : Type 0 where
  pub place : s ≡ index_at task_count base offset
  pub from : 0 < offset
  pub to : offset ≤ task_count
  pub ready : (tasks s).state ≡ TaskState.ready
  pub highest :
      (j : ℕ)
      → j < task_count
      → (tasks j).state ≡ TaskState.ready
      → (tasks j).priority ≤ (tasks s).priority
  pub turn :
      (o : ℕ)
      → 0 < o
      → o < offset
      → (tasks (index_at task_count base o)).state ≡ TaskState.ready
      → (tasks (index_at task_count base o)).priority ≢ (tasks s).priority

module _ (tasks : ℕ → Task) (task_count base : ℕ) (hb : base < task_count) where
  abbrev best : ℕ
  best = best_priority tasks task_count base

  bound_all :
      (j : ℕ) → j < task_count → (tasks j).state ≡ TaskState.ready → (tasks j).priority ≤ best
  bound_all j hj r =
      let (o, l, e) = offset_of task_count base j hb hj in
      subst (λ (i : ℕ). (tasks i).priority ≤ best) e
        ((best_priority-IsMax tasks task_count base).bound o l
          (subst (λ (i : ℕ). (tasks i).state ≡ TaskState.ready) (sym e) r))

  -- A task of the best priority is at an offset from 1 to `task_count`.
  best_at :
      (j : ℕ)
      → j < task_count
      → (tasks j).state ≡ TaskState.ready
      → (o : ℕ) × (1 ≤ o)
        × (o < task_count + 1)
        × ((tasks (index_at task_count base o)).state ≡ TaskState.ready)
        × ((tasks (index_at task_count base o)).priority ≡ best)
  best_at j hj r = from_zero (attained (best_priority-IsMax tasks task_count base).attained)
    where
      Place : ℕ → Type 0
      Place o =
          ((tasks (index_at task_count base o)).state ≡ TaskState.ready)
          × ((tasks (index_at task_count base o)).priority ≡ best)

      attained :
          (best ≡ 0)
            ⊎ ((o : ℕ) × (o < task_count)
                × ((tasks (index_at task_count base o)).state ≡ TaskState.ready)
                × ((tasks (index_at task_count base o)).priority ≡ best))
          → (o : ℕ) × (o < task_count)
            × ((tasks (index_at task_count base o)).state ≡ TaskState.ready)
            × ((tasks (index_at task_count base o)).priority ≡ best)
      attained (inl z) =
          let (o, l, e) = offset_of task_count base j hb hj in
          (o, l, rw e r, rw e (omega (arith, bound_all j hj r)))
      attained (inr found) = found

      from_zero :
          (o : ℕ) × (o < task_count)
            × ((tasks (index_at task_count base o)).state ≡ TaskState.ready)
            × ((tasks (index_at task_count base o)).priority ≡ best)
          → (o : ℕ) × (1 ≤ o)
            × (o < task_count + 1)
            × ((tasks (index_at task_count base o)).state ≡ TaskState.ready)
            × ((tasks (index_at task_count base o)).priority ≡ best)
      from_zero (zero, l, s, p) = (
        task_count,
        omega arith,
        omega arith,
        rw (index_at-task_count task_count base hb) s,
        rw (index_at-task_count task_count base hb) p,
      )
      from_zero (suc o, l, s, p) = (suc o, omega arith, omega arith, s, p)

-- If a configured task is ready, `pendsv_switch` chooses a ready task of the highest priority, the
-- first one behind the current task among its equals; the current task comes last.
pub next_index-Chosen :
    (tasks : ℕ → Task) (task_count base j : ℕ)
    → base < task_count
    → j < task_count
    → (tasks j).state ≡ TaskState.ready
    → (offset : ℕ) × (select_offset tasks task_count base ≡ some offset)
      × Chosen tasks task_count base (next_index tasks task_count base) offset
unfolding next_index select_offset
next_index-Chosen tasks task_count base j hb hj r =
    elim (find_scan_cases tasks task_count base (best_priority tasks task_count base) task_count 1
      (task_count + 1) (omega arith)) [
        | inl (none_found, rest) ↦
            let (o, l, u, s, p) = best_at tasks task_count base hb j hj r in absurd (rest o l u s p)
        | inr (s, found, first) ↦ (
          s,
          found,
          rw (next_index, found)
              (record {
                place = refl;
                from = omega (arith, first.from);
                to = omega (arith, first.before);
                ready = first.ready;
                highest = λ i l q.
                    omega (arith, first.priority, bound_all tasks task_count base hb i l q);
                turn = λ o l u q e. first.earlier o l u q (omega (arith, first.priority));
              }),
        )
      ]
