-- ===== src/Init/Check/Exact.antt =====
-- The checks of `JRT_KernelInit` of task.c accept exactly the valid configurations.
use just_rt.Common.{
  ℕ, ◌<◌, ◌≤◌, ◌≡◌, ◌≢◌, ◌↔◌, ◌⊎◌, inl, inr, false, ◌||◌, some, arith, ltb, ◌==◌, add32, ==_of_ne,
  le→ltb,
}
use just_rt.Init.Check.Sound.{
  any_from-false, any_from-none, first_error-ok, first_error-all, stack_placed, stack_not_misplaced,
  region_placed, region_not_misplaced,
}
use just_rt.Kernel.Status.{Status}
use just_rt.Init.Config.{KernelConfig, Build, internal_task_count, max_kernel_tasks}
use just_rt.Init.Check.{
  any_from, stacks_overlap, validate_task_stack, region_taken, region_in_kernel,
  validate_private_region, check_definition, check_region, first_error, validate,
}
use just_rt.Init.Check.Valid.{Words, StackOk, RegionOk, NoRegion, RegionApart, Valid, BuildOk}
use just_rt.Init.Check.Parts.{validate_parts, definition_parts, region_parts}
use just_rt.Init.Check.Single.{
  overlap_of_taken, overlap_of_region, taken_of_apart, kernel_of_apart, apart_of_kernel,
  stacks_of_overlap, overlap_of_stacks,
}

module _ (b : Build) (c : KernelConfig) (o : BuildOk b) (words : (i : ℕ) → Words (c.tasks i)) where
  all_definitions :
      validate b (some c) ≡ Status.ok
      → (i : ℕ) → i < c.task_count
      → ((c.tasks i).entry ≢ 0)
        × ((c.tasks i).priority ≤ b.max_task_priority)
        × StackOk b (c.tasks i)
        × (any_from (λ j. stacks_overlap (c.tasks i) (c.tasks j)) i 0 ≡ false)
  all_definitions h i l =
      let (t, n, m, definitions, regions) = validate_parts b c h in
      let (entry, priority, misplaced, wrapped, apart) = definition_parts b c i (
        first_error-ok (check_definition b c) c.task_count 0 definitions i (omega arith)
          (omega arith)) in
      (entry, priority, stack_placed b (c.tasks i) (words i) misplaced wrapped, apart)

  all_regions :
      validate b (some c) ≡ Status.ok
      → (i : ℕ) → i < c.task_count
      → NoRegion (c.tasks i)
        ⊎ (RegionOk b (c.tasks i)
            × (any_from (region_taken c i) c.task_count 0 ≡ false)
            × (region_in_kernel b (c.tasks i) ≡ false))
  all_regions h i l =
      let (t, n, m, definitions, regions) = validate_parts b c h in
      elim (region_parts b c i
        (first_error-ok (check_region b c) c.task_count 0 regions i (omega arith) (omega arith))) [
          | inl absent ↦ inl absent
          | inr (misplaced, outside, taken, kernel) ↦
              inr (region_placed b (c.tasks i) (words i) misplaced outside, taken, kernel)
        ]

  region_of_parts :
      validate b (some c) ≡ Status.ok
      → (i : ℕ) → i < c.task_count
      → RegionOk b (c.tasks i)
      → any_from (region_taken c i) c.task_count 0 ≡ false
      → region_in_kernel b (c.tasks i) ≡ false
      → RegionApart b c i
  region_of_parts h i l r taken kernel =
      let free : (j : ℕ) → j < c.task_count → region_taken c i j ≡ false = λ j lj.
        any_from-false (region_taken c i) c.task_count 0 taken j (omega arith) (omega arith) in
      record {
        stacks = λ j lj. overlap_of_taken b c o words i j (all_definitions h j lj).2 r (free j lj);
        regions = λ j lj n. elim (all_regions h j (omega arith)) [
          | inl absent ↦ absurd (n absent.0)
          | inr (s, _, _) ↦ overlap_of_region b c o words i j lj n s r (free j (omega arith))
        ];
        timer_service = (kernel_of_apart b c o words i r kernel).0;
        idle = (kernel_of_apart b c o words i r kernel).1;
      }

  accepted-Valid : validate b (some c) ≡ Status.ok → Valid b c
  unfolding stacks_overlap
  accepted-Valid h =
      let (t, n, m, definitions, regions) = validate_parts b c h in
      record {
        table = t;
        some_task = n;
        room = m;
        entry = λ i l. (all_definitions h i l).0;
        priority = λ i l. (all_definitions h i l).1;
        stack = λ i l. (all_definitions h i l).2;
        stacks_apart = λ i j lj li.
            let apart =
              any_from-false (λ q. stacks_overlap (c.tasks i) (c.tasks q)) i 0
                (all_definitions h i li).3 j (omega arith) (omega arith) in
            stacks_of_overlap b c o words i j (all_definitions h i li).2
              (all_definitions h j (omega arith)).2 apart;
        region = λ i l. elim (all_regions h i l) [
          | inl absent ↦ inl absent
          | inr (r, taken, kernel) ↦ inr (r, region_of_parts h i l r taken kernel)
        ];
      }

  definition_of_Valid : (i : ℕ) → Valid b c → i < c.task_count → check_definition b c i ≡ Status.ok
  unfolding check_definition validate_task_stack
  definition_of_Valid i v l =
      let (placed, unwrapped) = stack_not_misplaced b (c.tasks i) (words i) (v.stack i l) in
      let apart : any_from (λ j. stacks_overlap (c.tasks i) (c.tasks j)) i 0 ≡ false =
        any_from-none (λ j. stacks_overlap (c.tasks i) (c.tasks j)) i 0
          (λ j _ lj.
            overlap_of_stacks b c o words i j (v.stack i l) (v.stack j (omega arith))
              (v.stacks_apart i j (omega arith) l)) in
      rw (
        ==_of_ne (c.tasks i).entry 0 (v.entry i l),
        le→ltb b.max_task_priority (c.tasks i).priority (v.priority i l),
        placed,
        unwrapped,
        apart,
      )

  region_of_Valid : (i : ℕ) → Valid b c → i < c.task_count → check_region b c i ≡ Status.ok
  unfolding check_region validate_private_region
  region_of_Valid i v l = elim (v.region i l) [
    | inl absent ↦ ground (arith, absent)
    | inr (r, apart) ↦
        let (placed, inside) = region_not_misplaced b (c.tasks i) (words i) o r in
        let free : any_from (region_taken c i) c.task_count 0 ≡ false =
          any_from-none (region_taken c i) c.task_count 0 (λ j _ lj.
            taken_of_apart b c o words i j (omega arith) (v.stack j (omega arith)) r
              (either (v.region j (omega arith))) apart) in
        let kernel : region_in_kernel b (c.tasks i) ≡ false =
          apart_of_kernel b c o words i r apart in
        let present : (c.tasks i).private_data_base ≢ 0 = r.placed in
        ground (arith, present, placed, inside, free, kernel)
  ]
    where
      either :
          {j : ℕ}
          → NoRegion (c.tasks j) ⊎ (RegionOk b (c.tasks j) × RegionApart b c j)
          → NoRegion (c.tasks j) ⊎ RegionOk b (c.tasks j)
      either (inl n) = inl n
      either (inr p) = inr p.0

  accepted_of_Valid : Valid b c → validate b (some c) ≡ Status.ok
  unfolding validate
  accepted_of_Valid v =
      let definitions : first_error (check_definition b c) c.task_count 0 ≡ Status.ok =
        first_error-all (check_definition b c) c.task_count 0
          (λ i _ l. definition_of_Valid i v (omega arith)) in
      let regions : first_error (check_region b c) c.task_count 0 ≡ Status.ok =
        first_error-all (check_region b c) c.task_count 0
          (λ i _ l. region_of_Valid i v (omega arith)) in
      let present : ((c.table == 0) || (c.task_count == 0)) ≡ false =
        ground (arith, v.table, v.some_task) in
      let room : ltb b.max_application_tasks c.task_count ≡ false =
        le→ltb b.max_application_tasks c.task_count v.room in
      let total : ltb (add32 b.max_application_tasks max_kernel_tasks)
            (add32 c.task_count internal_task_count)
          ≡ false =
        ground (arith, v.room, o.table_room) in
      rw (present, room, total, definitions) regions

-- `JRT_KernelInit` accepts a configuration of 32-bit words just if it is valid: it names at least
-- one task and no more than the table has room for, each task has an entry, an allowed priority and
-- a stack with its guard that no other one overlaps, and a private region, where there is one, is
-- a power of two, aligned, unprivileged, inside its section, and overlaps no stack, no other region
-- and no storage of the kernel's tasks; nothing wraps.
pub validate_iff :
    (b : Build) (c : KernelConfig)
    → BuildOk b
    → ((i : ℕ) → Words (c.tasks i))
    → (validate b (some c) ≡ Status.ok) ↔ Valid b c
validate_iff b c o words = (accepted-Valid b c o words, accepted_of_Valid b c o words)
