-- ===== src/Sched/Passes.antt =====
-- The two passes of `pendsv_switch` of task.c, each over the offsets behind the current task.
use just_rt.Common.{
  ℕ, zero, suc, ◌+◌, ◌<◌, ◌≤◌, ◌≡◌, ◌≢◌, ◌⊎◌, inl, inr, refl, false, arith, none, some, Bool-cases,
  ==→eq, ltb, ◌==◌, ◌&&◌, if◌then◌else◌,
}
use just_rt.Kernel.{Task}
use just_rt.Kernel.TaskState
use just_rt.Sched.{index_at, best_scan, best_priority, find_scan}

module _ (tasks : ℕ → Task) (task_count base : ℕ) where
  abbrev pub at : ℕ → Task
  at offset = tasks (index_at task_count base offset)

  -- `best` bounds the ready priorities of the first `n` offsets, and one of them attains it unless
  -- it is 0.
  pub record IsMax (n best : ℕ) : Type 0 where
    pub bound : (o : ℕ) → o < n → (at o).state ≡ TaskState.ready → (at o).priority ≤ best
    pub attained :
        (best ≡ 0)
        ⊎ ((o : ℕ) × (o < n) × ((at o).state ≡ TaskState.ready) × ((at o).priority ≡ best))

  pub IsMax-step :
      (n best : ℕ)
      → IsMax n best
      → IsMax (n + 1) (
          if ((at n).state == TaskState.ready) && ltb best (at n).priority
          then (at n).priority
          else best)
  IsMax-step n best v =
      elim (Bool-cases (((at n).state == TaskState.ready) && ltb best (at n).priority)) [
        | inl b ↦ rw b (record {
          bound = λ o l r. grind (arith, v.bound);
          attained = inr (n, omega arith, ground arith, refl);
        })
        | inr b ↦
            rw b (record { bound = λ o l r. grind (arith, v.bound); attained = wider v.attained })
      ]
    where
      wider :
          (best ≡ 0)
            ⊎ ((o : ℕ) × (o < n) × ((at o).state ≡ TaskState.ready) × ((at o).priority ≡ best))
          → (best ≡ 0)
            ⊎ ((o : ℕ) × (o < n + 1) × ((at o).state ≡ TaskState.ready) × ((at o).priority ≡ best))
      wider (inl z) = inl z
      wider (inr (o, l, r, p)) = inr (o, omega arith, r, p)

  pub best_scan-IsMax :
      (rounds offset best n : ℕ)
      → offset + rounds ≡ n
      → IsMax offset best
      → IsMax n (best_scan tasks task_count base rounds offset best)
  unfolding best_scan
  best_scan-IsMax zero offset best n e v = let p : offset ≡ n = omega arith in rw (← p) v
  best_scan-IsMax (suc rounds) offset best n e v =
      best_scan-IsMax rounds (offset + 1)
        (if ((at offset).state == TaskState.ready) && ltb best (at offset).priority
          then (at offset).priority
          else best)
        n (omega arith) (IsMax-step offset best v)

  pub best_priority-IsMax : IsMax task_count (best_priority tasks task_count base)
  unfolding best_priority
  best_priority-IsMax =
      best_scan-IsMax task_count 0 0 task_count (omega arith)
        (record { bound = λ o l r. absurd (omega arith); attained = inl refl })

  -- No task at the offsets from `first` to before `last` is ready with priority `best`.
  abbrev pub NoFit : ℕ → ℕ → ℕ → Type 0
  NoFit best first last =
      (o : ℕ) → first ≤ o → o < last → (at o).state ≡ TaskState.ready → (at o).priority ≢ best

  -- The offset `s` is the first one of such a task.
  pub record FirstAt (best first last s : ℕ) : Type 0 where
    pub from : first ≤ s
    pub before : s < last
    pub ready : (at s).state ≡ TaskState.ready
    pub priority : (at s).priority ≡ best
    pub earlier : NoFit best first s

  pub NoFit-cons :
      (best first last : ℕ)
      → (((at first).state == TaskState.ready) && ((at first).priority == best)) ≡ false
      → NoFit best (first + 1) last
      → NoFit best first last
  NoFit-cons best first last unfit rest o l u r e = elim (Bool-cases (o == first)) [
    | inl same ↦ let q : o ≡ first = ==→eq o first same in ground (arith, rw q at r, rw q at e)
    | inr other ↦ rest o (ground arith) u r e
  ]

  pub find_scan_cases :
      (best rounds offset last : ℕ)
      → offset + rounds ≡ last
      → ((find_scan tasks task_count base best rounds offset ≡ none) × NoFit best offset last)
        ⊎ ((s : ℕ) × (find_scan tasks task_count base best rounds offset ≡ some s)
            × FirstAt best offset last s)
  unfolding find_scan
  find_scan_cases best zero offset last e = inl (refl, λ o l u r. absurd (omega arith))
  find_scan_cases best (suc rounds) offset last e =
      elim (Bool-cases (((at offset).state == TaskState.ready) && ((at offset).priority == best))) [
        | inl fit ↦ inr (
          offset,
          rw fit,
          record {
            from = omega arith;
            before = omega arith;
            ready = ground arith;
            priority = ground arith;
            earlier = λ o l u r. absurd (omega arith);
          },
        )
        | inr unfit ↦ rw unfit (elim (find_scan_cases best rounds (offset + 1) last (omega arith)) [
          | inl (none_found, rest) ↦ inl (none_found, NoFit-cons best offset last unfit rest)
          | inr (s, found, at_s) ↦ inr (
            s,
            found,
            record {
              from = omega (arith, at_s.from);
              before = at_s.before;
              ready = at_s.ready;
              priority = at_s.priority;
              earlier = NoFit-cons best offset s unfit at_s.earlier;
            },
          )
        ])
      ]
