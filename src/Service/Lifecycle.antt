-- ===== src/Service/Lifecycle.antt =====
-- `kernel_task_suspend`, `kernel_task_resume`, `sleep_current` and the task queries of task.c.
-- With JRT_ENABLE_TASK_BENCHMARK 0 the calls of the benchmark do nothing.
use just_rt.Common.{
  ℕ, ◌<◌, ◌≡◌, ◌≢◌, inl, inr, Bool, ◌&&◌, ◌||◌, true, false, arith, Option, none, some, ltb, leb,
  ◌==◌, ◌!=◌, if◌then◌else◌, if_intro, u32_max, update, Option-cases, Bool-cases, fun_ext, ap, sym,
  ◌∙◌, ==→eq, ==_refl, ==_of_ne, lt→leb, ◌≤◌,
}
use just_rt.Kernel.{Task, Kernel, current_task}
use just_rt.Kernel.TaskState
use just_rt.Kernel.Status.{Status}
use just_rt.Sched.{words_between}
use just_rt.Wait.Metadata.{TasksOk, TasksOk-update}

-- `JRT_TASK_ID_SELF`
abbrev pub task_id_self : ℕ
task_id_self = u32_max

-- `validate_task_id`
unfoldable pub validate_task_id : Kernel → ℕ → Status
validate_task_id k task_id = if ltb task_id k.task_count then Status.ok else Status.invalid_task

-- `resolve_application_task_id`: the task, `none` for JRT_STATUS_INVALID_TASK.
unfoldable pub resolve : Kernel → ℕ → Bool → Option ℕ
resolve k requested allow_self =
    let task_id = if allow_self && (requested == task_id_self) then k.current else requested in
    if leb k.application_task_count task_id then none else some task_id

-- `JRT_TaskGetState` with a place for the answer.
unfoldable pub get_state : Kernel → ℕ → Status × Option ℕ
get_state k task_id =
    if ltb task_id k.task_count
    then (Status.ok, some (k.tasks task_id).state)
    else (Status.invalid_task, none)

-- `JRT_TaskGetPriority` with a place for the answer.
unfoldable pub get_priority : Kernel → ℕ → Status × Option ℕ
get_priority k task_id =
    if ltb task_id k.task_count
    then (Status.ok, some (k.tasks task_id).priority)
    else (Status.invalid_task, none)

-- `JRT_TaskStackInfo_t`
pub record StackInfo : Type 0 where
  pub stack_words : ℕ
  pub used_words : ℕ
  pub minimum_sp : ℕ
  pub current_sp : ℕ

-- `JRT_TaskGetStackInfo` with a place for the answer, `none` for JRT_STATUS_INVALID_TASK.
unfoldable pub get_stack_info : Kernel → ℕ → Option StackInfo
get_stack_info k task_id =
    let t = k.tasks task_id in
    if ltb task_id k.task_count
    then some (record {
      stack_words = words_between t.stack_bottom t.stack_top;
      used_words = t.high_water_words;
      minimum_sp = t.minimum_sp;
      current_sp = t.sp;
    })
    else none

-- `JRT_TaskGetName` with a place for the answer.
unfoldable pub get_name : Kernel → ℕ → Status × Option ℕ
get_name k task_id =
    if ltb task_id k.task_count
    then (Status.ok, some (k.tasks task_id).name)
    else (Status.invalid_task, none)

abbrev pub set_state : Kernel → ℕ → ℕ → Kernel
set_state k i state = record k { tasks = update k.tasks i (record (k.tasks i) { state = state }) }

-- The state test of `kernel_task_suspend`
unfoldable pub cannot_suspend : Kernel → ℕ → Bool
cannot_suspend k i =
    ((k.tasks i).state != TaskState.ready)
    && (((k.tasks i).state != TaskState.running) || (i != k.current))

-- `kernel_task_suspend`
unfoldable pub suspend : Kernel → ℕ → Kernel × Status
suspend k requested =
    if k.initialized == 0
    then (k, Status.not_initialized)
    else (if k.started == 0 then (k, Status.invalid_context) else elim (resolve k requested true) [
      | none ↦ (k, Status.invalid_task)
      | some i ↦
          if cannot_suspend k i
          then (k, Status.invalid_state)
          else (set_state k i TaskState.suspended, Status.ok)
    ])

-- `kernel_task_resume`
unfoldable pub resume : Kernel → ℕ → Kernel × Status
resume k requested =
    if k.initialized == 0
    then (k, Status.not_initialized)
    else (if k.started == 0 then (k, Status.invalid_context) else elim (resolve k requested false) [
      | none ↦ (k, Status.invalid_task)
      | some i ↦
          if (k.tasks i).state != TaskState.suspended
          then (k, Status.invalid_state)
          else (set_state k i TaskState.ready, Status.ok)
    ])

-- `sleep_current`
unfoldable pub sleep_current : Kernel → ℕ → Kernel
sleep_current k ticks = record k {
  tasks = update k.tasks k.current (record (current_task k) {
    sleep_ticks = ticks;
    state = if ticks == 0 then TaskState.ready else TaskState.sleeping;
  });
}

set_state-TasksOk :
    (k : Kernel) (i state : ℕ)
    → TasksOk k.tasks
    → (k.tasks i).state ≢ TaskState.blocked
    → state ≢ TaskState.blocked
    → state ≤ TaskState.suspended
    → TasksOk (set_state k i state).tasks
set_state-TasksOk k i state v h h' hs = TasksOk-update k.tasks i _ v (ground (arith, v i))

-- `kernel_task_suspend` and `kernel_task_resume`, whatever their argument, and `sleep_current` of a
-- task that is not blocked, keep the wait metadata of every task in accord with its state.
pub lifecycle-TasksOk :
    (k : Kernel) (requested ticks : ℕ)
    → TasksOk k.tasks
    → (current_task k).state ≢ TaskState.blocked
    → TasksOk (suspend k requested).0.tasks
      × TasksOk (resume k requested).0.tasks
      × TasksOk (sleep_current k ticks).tasks
unfolding suspend resume sleep_current cannot_suspend
lifecycle-TasksOk k requested ticks v h = (
  if_intro P (k.initialized == 0) (λ _. v)
      (λ _.
        if_intro P (k.started == 0) (λ _. v)
          (λ _. elim (Option-cases (resolve k requested true)) [
            | inl e ↦ rw e v
            | inr (i, e) ↦ rw e (
                if_intro P (cannot_suspend k i) (λ _. v)
                  (λ can.
                    set_state-TasksOk k i TaskState.suspended v (ground (arith, can)) (omega arith)
                      (omega arith)))
          ])),
  if_intro P (k.initialized == 0) (λ _. v)
      (λ _.
        if_intro P (k.started == 0) (λ _. v)
          (λ _. elim (Option-cases (resolve k requested false)) [
            | inl e ↦ rw e v
            | inr (i, e) ↦ rw e (
                if_intro P ((k.tasks i).state != TaskState.suspended) (λ _. v)
                  (λ can.
                    set_state-TasksOk k i TaskState.ready v (ground (arith, can)) (omega arith)
                      (omega arith)))
          ])),
  TasksOk-update k.tasks k.current _ v (ground (arith, v k.current)),
)
  where
    P : Kernel × Status → Type 0
    P o = TasksOk o.0.tasks

set_state-set_state : (k : Kernel) (i a : ℕ) → set_state (set_state k i a) i (k.tasks i).state ≡ k
set_state-set_state k i a =
    ap (λ (tasks : ℕ → Task). record k { tasks = tasks })
      (fun_ext (λ q. elim (Bool-cases (q == i)) [
        | inl e ↦ rw (e, ==_refl i) (ap k.tasks (sym (==→eq q i e)))
        | inr e ↦ rw e
      ]))

resume_lem :
    (k : Kernel) (i : ℕ)
    → k.initialized ≢ 0
    → k.started ≢ 0
    → i < k.application_task_count
    → (k.tasks i).state ≡ TaskState.suspended
    → resume k i ≡ (set_state k i TaskState.ready, Status.ok)
unfolding resume resolve
resume_lem k i hi hs ha hr =
    let initialized : (k.initialized == 0) ≡ false = ==_of_ne k.initialized 0 hi in
    let started : (k.started == 0) ≡ false = ==_of_ne k.started 0 hs in
    let inside : leb k.application_task_count i ≡ false = lt→leb i k.application_task_count ha in
    rw (initialized, started, inside, hr)

-- On a started kernel, an application task that is ready is suspended by `kernel_task_suspend`, and
-- `kernel_task_resume` then leads back to the same kernel.
pub resume-suspend :
    (k : Kernel) (i : ℕ)
    → k.initialized ≢ 0
    → k.started ≢ 0
    → i < k.application_task_count
    → i ≢ task_id_self
    → (k.tasks i).state ≡ TaskState.ready
    → (suspend k i ≡ (set_state k i TaskState.suspended, Status.ok))
      × (resume (set_state k i TaskState.suspended) i ≡ (k, Status.ok))
unfolding suspend resolve cannot_suspend
resume-suspend k i hi hs ha self hr =
    let initialized : (k.initialized == 0) ≡ false = ==_of_ne k.initialized 0 hi in
    let started : (k.started == 0) ≡ false = ==_of_ne k.started 0 hs in
    let other : (i == task_id_self) ≡ false = ==_of_ne i task_id_self self in
    let inside : leb k.application_task_count i ≡ false = lt→leb i k.application_task_count ha in
    (
      rw (initialized, started, other, inside, hr),
      resume_lem (set_state k i TaskState.suspended) i hi hs ha (rw (==_refl i))
          ∙ ap (λ (k' : Kernel). (k', Status.ok))
              (ap (set_state (set_state k i TaskState.suspended) i) (sym hr)
                ∙ set_state-set_state k i TaskState.suspended),
    )
