-- ===== src/Init/Boot/Booted.antt =====
-- The kernel that `JRT_KernelInit` of task.c leaves.
use just_rt.Common.{
  ◌+◌, ◌≤◌, ◌≡◌, inl, inr, refl, sym, ap, subst, ◌∙◌, arith, some, ℕ, ◌<◌, ◌≢◌, ◌⊎◌, true, ◌==◌,
  if◌then◌else◌, update_ne, update_self, Bool-cases, ==→eq, ==→ne,
}
use just_rt.Init.Check.Valid.{Words, BuildOk, Valid}
use just_rt.Kernel.{Kernel, Mpu}
use just_rt.Kernel.TaskState
use just_rt.Kernel.Status.{Status}
use just_rt.Mpu.Private.{PrivateSize}
use just_rt.Sched.{task_stack_guard}
use just_rt.Tick.Check.{KernelOk}
use just_rt.Init.Config.{TaskDefinition, KernelConfig, Build}
use just_rt.Init.Check.{validate}
use just_rt.Init.Check.Exact.{validate_iff}
use just_rt.Wait.{begin_wait}
use just_rt.Init.Prepare.{described, reset_wait, idle_definition}
use just_rt.Sched.Switch.{OneRunning}
use just_rt.Init.Boot.{is_ok, Task, prepare_all, reset_diagnostics, kernel_init}
use just_rt.Init.Boot.Parts.{SectionsOk, region_size, index_cases}
use just_rt.Init.Boot.Stored.{
  Stored, NotWaiting, ServiceWaits, service_description, idle_description, ready_task-Stored,
  ready_task-NotWaiting, ready_task-state, service_task-Stored, service_task-ServiceWaits,
}
use just_rt.Init.Boot.Launched.{booted, kernel_init-booted, booted-KernelOk}
use just_rt.Init.Boot.Tasks.{ready_task, Prepared, prepare_all-Prepared}

-- The state of task `i`: task 0 runs, the timer service waits, the others are ready.
abbrev initial_state : ℕ → ℕ
initial_state i = if i == 0 then TaskState.running else TaskState.ready

-- The kernel `k'` that a successful initialisation makes of `k`: the counts, every field of the
-- configured tasks and of the kernel's own two, and one running task.
pub record Booted (b : Build) (c : KernelConfig) (k k' : Kernel) : Type 0 where
  pub checked : KernelOk k'
  pub counts : (k'.task_count ≡ c.task_count + 2) × (k'.application_task_count ≡ c.task_count)
  pub flags : (k'.current ≡ 0) × (k'.initialized ≡ 1) × (k'.started ≡ 0)
  pub service_index : k'.timer_service_task_index ≡ c.task_count
  pub application :
      (i : ℕ)
      → i < c.task_count
      → Stored (c.tasks i) (k.tasks i) (k'.tasks i)
        × NotWaiting (k'.tasks i)
        × ((k'.tasks i).state ≡ initial_state i)
  pub timer_service :
      Stored (service_description b) (k.tasks c.task_count) (k'.tasks c.task_count)
      × ServiceWaits k.ticks (k'.tasks c.task_count)
  pub idle :
      Stored (idle_description b) (k.tasks (c.task_count + 1)) (k'.tasks (c.task_count + 1))
      × NotWaiting (k'.tasks (c.task_count + 1))
      × ((k'.tasks (c.task_count + 1)).state ≡ TaskState.ready)
  pub others : (i : ℕ) → c.task_count + 1 < i → k'.tasks i ≡ k.tasks i
  pub only : OneRunning k'
  pub protected : k'.mpu.stack_guard_base ≡ (c.tasks 0).stack_guard

module _ (b : Build) (c : KernelConfig) (k : Kernel) (ok : KernelOk k)
    (room : k.task_count ≤ c.task_count + 2)
    (quiet : (i : ℕ) → (k.tasks i).state ≢ TaskState.running) (valid : Valid b c) (mpu : Mpu)
    (guarded : mpu.stack_guard_base ≡ task_stack_guard ((prepare_all b c k).tasks 0)) where
  abbrev result : Kernel
  result = booted b c k ok room mpu

  abbrev before : Kernel
  before = prepare_all b c k

  parts : Prepared b c k before
  parts = prepare_all-Prepared b c k

  first_ready : before.tasks 0 ≡ ready_task (k.tasks 0) (c.tasks 0)
  first_ready = parts.application 0 (omega (arith, valid.some_task))

  kept : (i : ℕ) → i ≢ 0 → result.tasks i ≡ before.tasks i
  kept i h = update_ne before.tasks 0 i _ h

  result-application :
      (i : ℕ)
      → i < c.task_count
      → result.tasks i ≡ record (ready_task (k.tasks i) (c.tasks i)) { state = initial_state i }
  unfolding described reset_wait
  result-application i l = elim (Bool-cases (i == 0)) [
    | inl first ↦
        subst
          (λ n.
            result.tasks n
            ≡ record (ready_task (k.tasks n) (c.tasks n)) { state = initial_state n })
          (sym (==→eq i 0 first))
          (update_self before.tasks 0 _
            ∙ ap (λ (t : Task). record t { state = TaskState.running }) first_ready)
    | inr other ↦
        let ready : initial_state i ≡ TaskState.ready = rw other refl in
        kept i (==→ne i 0 other)
        ∙ parts.application i l
        ∙ ap (λ s. record (ready_task (k.tasks i) (c.tasks i)) { state = s }) (sym ready)
  ]

  -- A task that is prepared, and then in the state `state`, holds what its definition says.
  ready_stored :
      (i state : ℕ) (d : TaskDefinition)
      → result.tasks i ≡ record (ready_task (k.tasks i) d) { state = state }
      → Stored d (k.tasks i) (result.tasks i)
        × NotWaiting (result.tasks i)
        × ((result.tasks i).state ≡ state)
  ready_stored i state d e =
      subst (λ t. Stored d (k.tasks i) t × NotWaiting t × (t.state ≡ state)) (sym e)
        (ready_task-Stored (k.tasks i) d state, ready_task-NotWaiting (k.tasks i) d state, refl)

  result-timer_service :
      Stored (service_description b) (k.tasks c.task_count) (result.tasks c.task_count)
      × ServiceWaits k.ticks (result.tasks c.task_count)
  result-timer_service =
      let before_task = k.tasks c.task_count in
      subst (λ t. Stored (service_description b) before_task t × ServiceWaits k.ticks t)
        (sym (kept c.task_count valid.some_task ∙ parts.timer_service))
        (service_task-Stored b k before_task, service_task-ServiceWaits b k before_task)

  before-quiet : (i : ℕ) → (before.tasks i).state ≢ TaskState.running
  unfolding reset_wait described begin_wait
  before-quiet i = elim (index_cases i c.task_count) [
    | inl app ↦ rw (parts.application i app) (omega arith)
    | inr (inl service) ↦ rw (service, parts.timer_service) (omega arith)
    | inr (inr (inl idle)) ↦ rw (idle, parts.idle) (omega arith)
    | inr (inr (inr other)) ↦ rw (parts.others i other) (quiet i)
  ]

  result-OneRunning : OneRunning result
  unfolding reset_diagnostics
  result-OneRunning i e = elim (Bool-cases (i == 0)) [
    | inl first ↦ ==→eq i 0 first
    | inr other ↦
        absurd (before-quiet i (ap (λ (t : Task). t.state) (sym (kept i (==→ne i 0 other))) ∙ e))
  ]

  result-Booted : Booted b c k result
  unfolding reset_diagnostics described reset_wait
  result-Booted = record {
    checked = booted-KernelOk b c k ok room mpu (ap (λ (t : Task). t.state) first_ready);
    counts = (
      ap (λ (m : Kernel). m.task_count) parts.rest,
      ap (λ (m : Kernel). m.application_task_count) parts.rest,
    );
    flags = (refl, refl, refl);
    service_index = ap (λ (m : Kernel). m.timer_service_task_index) parts.rest;
    application = λ i l. ready_stored i (initial_state i) (c.tasks i) (result-application i l);
    timer_service = result-timer_service;
    idle = ready_stored (c.task_count + 1) TaskState.ready (idle_definition b) (
        kept (c.task_count + 1) (omega arith)
        ∙ parts.idle
        ∙ ready_task-state (k.tasks (c.task_count + 1)) (idle_definition b));
    others = λ i l. kept i (omega arith) ∙ parts.others i l;
    only = result-OneRunning;
    protected =
        guarded
        ∙ ap task_stack_guard first_ready
        ∙ omega (arith, (valid.stack 0 (omega (arith, valid.some_task))).adjacent);
  }

first_size :
    (b : Build) (c : KernelConfig) (k : Kernel)
    → Valid b c
    → PrivateSize ((prepare_all b c k).tasks 0).private_data_size
unfolding described reset_wait
first_size b c k valid =
    let inside : 0 < c.task_count = omega (arith, valid.some_task) in
    let prepared = prepare_all-Prepared b c k in
    subst PrivateSize (sym (ap (λ (t : Task). t.private_data_size) (prepared.application 0 inside)))
      (region_size b c 0 (valid.region 0 inside))

is_ok_sound : (s : Status) → is_ok s ≡ true → s ≡ Status.ok
is_ok_sound Status.ok h = refl
is_ok_sound _ h = cc

-- `JRT_KernelInit` on a kernel with accepted lists, no task in the state RUNNING, and no more tasks
-- than the new table has, for a configuration of 32-bit words, in a build whose storages and
-- sections end below 2 ^ 32 and whose MPU ranges end by 2 ^ 31: for a valid configuration it returns
-- JRT_STATUS_OK and a kernel whose table holds the configured tasks, then the timer service, then the
-- idle task. Each has the stack, entry, argument, priority and base priority, name, flags and
-- private region of its definition, its stack pointer 17 words below the end of its stack, no
-- notification or event condition, and the sleep ticks and run count that it had. The timer service
-- waits for ever; the other tasks wait for nothing and are ready, but for task 0, which alone is
-- RUNNING. The stack guard that the MPU records is that of task 0, and the kernel's invariants hold.
-- For any other configuration it returns an error and changes nothing.
pub kernel_init-Booted :
    (b : Build) (c : KernelConfig) (k : Kernel)
    → BuildOk b
    → SectionsOk b
    → ((i : ℕ) → Words (c.tasks i))
    → KernelOk k
    → k.task_count ≤ c.task_count + 2
    → ((i : ℕ) → (k.tasks i).state ≢ TaskState.running)
    → (Valid b c
        × ((k' : Kernel) × (kernel_init b (some c) k ≡ some (k', Status.ok)) × Booted b c k k'))
      ⊎ ((¬ Valid b c)
          × ((s : Status) × (s ≢ Status.ok) × (kernel_init b (some c) k ≡ some (k, s))))
unfolding kernel_init
kernel_init-Booted b c k build sections words ok room quiet =
    let (sound, complete) = validate_iff b c build words in
    elim (Bool-cases (is_ok (validate b (some c)))) [
      | inl accepted ↦
          let valid = sound (is_ok_sound (validate b (some c)) accepted) in
          let (mpu, e, guarded) =
            kernel_init-booted b c k ok room sections (first_size b c k valid) (complete valid) in
          inl (
            valid,
            (booted b c k ok room mpu, e, result-Booted b c k ok room quiet valid mpu guarded),
          )
      | inr refused ↦
          let wrong : validate b (some c) ≢ Status.ok = λ e. cc in
          inr (λ valid. wrong (complete valid), (validate b (some c), wrong, rw refused refl))
    ]
