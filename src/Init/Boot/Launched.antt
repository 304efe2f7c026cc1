-- ===== src/Init/Boot/Launched.antt =====
-- `JRT_KernelInit` of task.c from the prepared tasks on: it ends, and keeps the kernel's invariants.
use just_rt.Common.{◌+◌, ◌≤◌, ◌≡◌, inl, inr, refl, sym, ap, subst, ◌∙◌, arith, update, some}
use just_rt.Kernel.{Kernel, Mpu}
use just_rt.Kernel.TaskState
use just_rt.Kernel.Status.{Status}
use just_rt.Wait.Metadata.{TaskOk, TasksOk, TasksOk-update}
use just_rt.Mpu.Private.{PrivateSize}
use just_rt.Sched.{task_stack_guard}
use just_rt.Tick.Check.{KernelOk}
use just_rt.Init.Config.{KernelConfig, Build}
use just_rt.Init.Check.{validate}
use just_rt.Init.Prepare.{idle_definition}
use just_rt.Init.Boot.{prepare_all, reset_diagnostics, launch, kernel_init}
use just_rt.Init.Boot.Parts.{
  SectionsOk, configure_mpu_ends, ready_task-TaskOk, service_task-TaskOk, index_cases, AllOk-more,
}
use just_rt.Init.Boot.Tasks.{Prepared, prepare_all-Prepared}

module _ (b : Build) (c : KernelConfig) (k : Kernel) (ok : KernelOk k)
    (room : k.task_count ≤ c.task_count + 2) where
  abbrev all : Kernel
  all = prepare_all b c k

  prepared : Prepared b c k all
  prepared = prepare_all-Prepared b c k

  prepare_all-TasksOk : TasksOk all.tasks
  prepare_all-TasksOk i = elim (index_cases i c.task_count) [
    | inl app ↦
        subst TaskOk (sym (prepared.application i app)) (ready_task-TaskOk (k.tasks i) (c.tasks i))
    | inr (inl service) ↦
        subst TaskOk (sym (ap all.tasks service ∙ prepared.timer_service))
          (service_task-TaskOk b k (k.tasks c.task_count))
    | inr (inr (inl idle)) ↦
        subst TaskOk (sym (ap all.tasks idle ∙ prepared.idle))
          (ready_task-TaskOk (k.tasks (c.task_count + 1)) (idle_definition b))
    | inr (inr (inr other)) ↦ subst TaskOk (sym (prepared.others i other)) (ok.tasks i)
  ]

  prepare_all-KernelOk : KernelOk all
  prepare_all-KernelOk =
      let (xs, r, accepted) = ok.mutexes in
      let ((ys, s), periods) = ok.timers in
      subst KernelOk (sym prepared.rest) (record {
        tasks = prepare_all-TasksOk;
        mutexes = (
          xs,
          record { chain = r.chain; counted = r.counted },
          AllOk-more k.task_count (c.task_count + 2) k.mutexes xs room accepted,
        );
        timers = ((ys, record { chain = s.chain; counted = s.counted }), periods);
      })

  -- The kernel, the MPU being set up for task 0.
  abbrev pub booted : Mpu → Kernel
  booted mpu = record (reset_diagnostics all) {
    mpu = mpu;
    tasks = update all.tasks 0 (record (all.tasks 0) { state = TaskState.running });
    initialized = 1;
  }

  pub kernel_init-booted :
      SectionsOk b
      → PrivateSize (all.tasks 0).private_data_size
      → validate b (some c) ≡ Status.ok
      → (mpu : Mpu) × (kernel_init b (some c) k ≡ some (booted mpu, Status.ok))
        × (mpu.stack_guard_base ≡ task_stack_guard (all.tasks 0))
  unfolding kernel_init launch reset_diagnostics
  kernel_init-booted s fits valid =
      let first = all.tasks 0 in
      let (mpu, e, guarded) =
        configure_mpu_ends b all.mpu (task_stack_guard first) first.private_data_base
          first.private_data_size s fits in
      (mpu, rw (valid, e) refl, guarded)

  pub booted-KernelOk : (mpu : Mpu) → (all.tasks 0).state ≡ TaskState.ready → KernelOk (booted mpu)
  unfolding reset_diagnostics
  booted-KernelOk mpu ready =
      let before = prepare_all-KernelOk in
      let (xs, r, accepted) = before.mutexes in
      let ((ys, s), periods) = before.timers in
      record {
        tasks = TasksOk-update all.tasks 0 _ before.tasks (ground (arith, ready, before.tasks 0));
        mutexes = (xs, record { chain = r.chain; counted = r.counted }, accepted);
        timers = ((ys, record { chain = s.chain; counted = s.counted }), periods);
      }
