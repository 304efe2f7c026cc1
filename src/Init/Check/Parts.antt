-- ===== src/Init/Check/Parts.antt =====
-- What the checks of `JRT_KernelInit` of task.c have found when they report no error.
use just_rt.Common.{ℕ, ◌≤◌, ◌≡◌, ◌≢◌, ◌⊎◌, false, some, arith, ltb}
use just_rt.Kernel.Status.{Status}
use just_rt.Init.Config.{KernelConfig, Build, stack_end}
use just_rt.Init.Check.{
  stack_misplaced, any_from, stacks_overlap, validate_task_stack, region_misplaced, region_outside,
  region_taken, region_in_kernel, validate_private_region, check_definition, check_region,
  first_error, validate,
}
use just_rt.Init.Check.Valid.{NoRegion}

module _ (b : Build) (c : KernelConfig) where
  pub validate_parts :
      validate b (some c) ≡ Status.ok
      → (c.table ≢ 0)
        × (c.task_count ≢ 0)
        × (c.task_count ≤ b.max_application_tasks)
        × (first_error (check_definition b c) c.task_count 0 ≡ Status.ok)
        × (first_error (check_region b c) c.task_count 0 ≡ Status.ok)
  unfolding validate
  validate_parts h = ground arith

  pub definition_parts :
      (i : ℕ)
      → check_definition b c i ≡ Status.ok
      → ((c.tasks i).entry ≢ 0)
        × ((c.tasks i).priority ≤ b.max_task_priority)
        × (stack_misplaced b (c.tasks i) ≡ false)
        × (ltb (stack_end (c.tasks i)) (c.tasks i).stack_buffer ≡ false)
        × (any_from (λ j. stacks_overlap (c.tasks i) (c.tasks j)) i 0 ≡ false)
  unfolding check_definition validate_task_stack
  definition_parts i h = ground arith

  pub region_parts :
      (i : ℕ)
      → check_region b c i ≡ Status.ok
      → NoRegion (c.tasks i)
        ⊎ ((region_misplaced (c.tasks i) ≡ false)
            × (region_outside b (c.tasks i) ≡ false)
            × (any_from (region_taken c i) c.task_count 0 ≡ false)
            × (region_in_kernel b (c.tasks i) ≡ false))
  unfolding check_region validate_private_region
  region_parts i h = ground arith
