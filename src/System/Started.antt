-- ===== src/System/Started.antt =====
-- The states that the kernel of task.c, sync.c and timer.c reaches from `JRT_KernelInit` on.
use just_rt.Common.{ℕ, ◌+◌, ◌≤◌, ◌≡◌, ◌≢◌, inl, inr, ap, ◌∙◌, sym, arith, some, subst}
use mathlib.Core.Option.{some-injective}
use just_rt.Kernel.{Kernel}
use just_rt.Kernel.TaskState
use just_rt.Kernel.Status
use just_rt.Tick.Check.{KernelOk}
use just_rt.Init.Config.{KernelConfig, Build}
use just_rt.Init.Check.Valid.{Valid, BuildOk, Words}
use just_rt.Init.Boot.{kernel_init}
use just_rt.Mpu.Private.{PrivateSize}
use just_rt.Init.Boot.Parts.{SectionsOk, index_cases, region_size}
use just_rt.Init.Boot.Booted.{Booted, kernel_init-Booted}
use just_rt.System.State.{SystemOk}
use just_rt.System.Steps.{Reachable}
use just_rt.System.Reached.{Live, SystemOk-Live, Reachable-SystemOk}

Booted-SystemOk :
    (b : Build) (c : KernelConfig) (k k' : Kernel)
    → BuildOk b
    → Valid b c
    → Booted b c k k'
    → SystemOk k'
Booted-SystemOk b c k k' build valid boot = record {
  size = omega (arith, boot.counts.0, valid.room, build.table_room);
  internal = omega (arith, boot.counts.0, boot.counts.1);
  inside = omega (arith, boot.counts.0, boot.flags.0);
  only = boot.only;
  idle = rw boot.counts.1 (omega (arith, boot.counts.0), inl boot.idle.2);
  regions = λ i h. elim (index_cases i c.task_count) [
    | inl app ↦
        subst PrivateSize (sym (boot.application i app).0.private_data.1)
          (region_size b c i (valid.region i app))
    | inr (inl service) ↦
        inl (ap (λ n. (k'.tasks n).private_data_size) service ∙ boot.timer_service.0.private_data.1)
    | inr (inr (inl idle)) ↦
        inl (ap (λ n. (k'.tasks n).private_data_size) idle ∙ boot.idle.0.private_data.1)
    | inr (inr (inr other)) ↦ absurd (omega (arith, boot.counts.0))
  ];
  checked = boot.checked;
}

-- After `JRT_KernelInit` has returned JRT_STATUS_OK on a kernel with accepted lists, no task in the
-- state RUNNING, and no more tasks than the new table has, for a configuration of 32-bit words, in a
-- build whose storages and sections end below 2 ^ 32 and whose MPU ranges end by 2 ^ 31: every state
-- that the kernel reaches by the calls, ticks, changes of context and context switches of `Step`,
-- under the conditions that stand there, is well formed, which means that at most the current task
-- is in the state RUNNING, the idle task can run, the private regions have sizes that the
-- initialisation accepts, and the invariants that the tick checks hold. In each such state the next
-- tick continues, and PendSV, on an intact stack, finds a task, which then runs.
pub kernel_init-Live :
    (b : Build) (c : KernelConfig) (address : ℕ → ℕ) (k k0 k1 : Kernel)
    → BuildOk b
    → SectionsOk b
    → ((i : ℕ) → Words (c.tasks i))
    → KernelOk k
    → k.task_count ≤ c.task_count + 2
    → ((i : ℕ) → (k.tasks i).state ≢ TaskState.running)
    → kernel_init b (some c) k ≡ some (k0, Status.ok)
    → Reachable address k0 k1
    → SystemOk k1 × Live address k1
kernel_init-Live b c address k k0 k1 build sections words ok room quiet e reached =
    elim (kernel_init-Booted b c k build sections words ok room quiet) [
      | inl (valid, (k', e', boot)) ↦
          let same : k' ≡ k0 =
            ap (λ (o : Kernel × Status.Status). o.0) (some-injective _ _ (sym e' ∙ e)) in
          let start = subst SystemOk same (Booted-SystemOk b c k k' build valid boot) in
          let final = Reachable-SystemOk start reached in (final, SystemOk-Live address k1 final)
      | inr (wrong, (s, failed, e')) ↦
          absurd
            (failed (ap (λ (o : Kernel × Status.Status). o.1) (some-injective _ _ (sym e' ∙ e))))
    ]
