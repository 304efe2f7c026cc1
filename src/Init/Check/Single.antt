-- ===== src/Init/Check/Single.antt =====
-- Each single check of `JRT_KernelInit` of task.c, on arithmetic without a bound, for a
-- configuration of 32-bit words.
use just_rt.Common.{ℕ, ◌<◌, ◌≡◌, ◌≢◌, ◌⊎◌, inl, inr, false, arith}
use just_rt.Init.Check.Sound.{stack_end-limit, private_end-limit}
use just_rt.Init.Config.{KernelConfig, Build}
use just_rt.Init.Check.{ranges_overlap, stacks_overlap, region_taken, region_in_kernel}
use just_rt.Init.Check.Valid.{
  Words, stack_limit, region_limit, Disjoint, StackOk, RegionOk, NoRegion, RegionApart, BuildOk,
  storage_limit,
}

module _ (b : Build) (c : KernelConfig) (o : BuildOk b) (words : (i : ℕ) → Words (c.tasks i)) where
  pub overlap_of_taken :
      (i j : ℕ)
      → StackOk b (c.tasks j)
      → RegionOk b (c.tasks i)
      → region_taken c i j ≡ false
      → Disjoint
          (c.tasks i).private_data_base
          (region_limit (c.tasks i))
          (c.tasks j).stack_guard
          (stack_limit (c.tasks j))
  unfolding region_taken ranges_overlap
  overlap_of_taken i j s r h = ground (
    arith,
    stack_end-limit b (c.tasks j) (words j) s,
    private_end-limit b (c.tasks i) (words i) r,
  )

  pub overlap_of_region :
      (i j : ℕ)
      → j < i
      → (c.tasks j).private_data_base ≢ 0
      → RegionOk b (c.tasks j)
      → RegionOk b (c.tasks i)
      → region_taken c i j ≡ false
      → Disjoint
          (c.tasks i).private_data_base
          (region_limit (c.tasks i))
          (c.tasks j).private_data_base
          (region_limit (c.tasks j))
  unfolding region_taken ranges_overlap
  overlap_of_region i j l n s r h = ground (
    arith,
    private_end-limit b (c.tasks j) (words j) s,
    private_end-limit b (c.tasks i) (words i) r,
  )

  pub taken_of_apart :
      (i j : ℕ)
      → j < c.task_count
      → StackOk b (c.tasks j)
      → RegionOk b (c.tasks i)
      → NoRegion (c.tasks j) ⊎ RegionOk b (c.tasks j)
      → RegionApart b c i
      → region_taken c i j ≡ false
  unfolding region_taken ranges_overlap
  taken_of_apart i j l s r (inl n) a = ground (
    arith,
    stack_end-limit b (c.tasks j) (words j) s,
    private_end-limit b (c.tasks i) (words i) r,
    a.stacks j l,
  )
  taken_of_apart i j l s r (inr p) a = ground (
    arith,
    stack_end-limit b (c.tasks j) (words j) s,
    private_end-limit b (c.tasks i) (words i) r,
    private_end-limit b (c.tasks j) (words j) p,
    a.stacks j l,
    a.regions j,
  )

  pub kernel_of_apart :
      (i : ℕ)
      → RegionOk b (c.tasks i)
      → region_in_kernel b (c.tasks i) ≡ false
      → Disjoint
          (c.tasks i).private_data_base
          (region_limit (c.tasks i))
          b.timer_service_storage
          (storage_limit b.timer_service_storage b.timer_service_stack_words)
        × Disjoint
            (c.tasks i).private_data_base
            (region_limit (c.tasks i))
            b.idle_storage
            (storage_limit b.idle_storage b.idle_stack_words)
  unfolding region_in_kernel ranges_overlap
  kernel_of_apart i r h = ground (arith, o, private_end-limit b (c.tasks i) (words i) r)

  pub apart_of_kernel :
      (i : ℕ) → RegionOk b (c.tasks i) → RegionApart b c i → region_in_kernel b (c.tasks i) ≡ false
  unfolding region_in_kernel ranges_overlap
  apart_of_kernel i r a =
      ground (arith, o, private_end-limit b (c.tasks i) (words i) r, a.timer_service, a.idle)

  pub stacks_of_overlap :
      (i j : ℕ)
      → StackOk b (c.tasks i)
      → StackOk b (c.tasks j)
      → stacks_overlap (c.tasks i) (c.tasks j) ≡ false
      → Disjoint
          (c.tasks i).stack_guard
          (stack_limit (c.tasks i))
          (c.tasks j).stack_guard
          (stack_limit (c.tasks j))
  unfolding stacks_overlap
  stacks_of_overlap i j s t h =
      ground (
        arith,
        stack_end-limit b (c.tasks i) (words i) s,
        stack_end-limit b (c.tasks j) (words j) t,
      )

  pub overlap_of_stacks :
      (i j : ℕ)
      → StackOk b (c.tasks i)
      → StackOk b (c.tasks j)
      → Disjoint
          (c.tasks i).stack_guard
          (stack_limit (c.tasks i))
          (c.tasks j).stack_guard
          (stack_limit (c.tasks j))
      → stacks_overlap (c.tasks i) (c.tasks j) ≡ false
  unfolding stacks_overlap
  overlap_of_stacks i j s t h =
      ground (
        arith,
        stack_end-limit b (c.tasks i) (words i) s,
        stack_end-limit b (c.tasks j) (words j) t,
      )
