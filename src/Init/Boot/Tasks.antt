-- ===== src/Init/Boot/Tasks.antt =====
-- The table of tasks that `JRT_KernelInit` of task.c builds.
use just_rt.Common.{
  ℕ, zero, suc, ◌+◌, ◌-◌, ◌*◌, ◌<◌, ◌≤◌, ◌≡◌, ◌⊎◌, inl, inr, refl, ap, ◌∙◌, arith, ◌==◌, update,
  update_self, update_ne, Bool-cases, ==→eq, ==→ne, List, [], ◌∷◌, length,
}
use just_rt.Kernel.{Task, Kernel}
use just_rt.Kernel.TaskState
use just_rt.Kernel.WaitKind
use just_rt.Wait.{begin_wait, wait_deadline, wait_forever}
use just_rt.Timer.{timer_service_wait_object}
use just_rt.Init.Config.{TaskDefinition, KernelConfig, Build}
use just_rt.Init.Prepare.{
  push_words, initial_frame, build_initial_stack, prepare_stack, described, prepare_task,
  prepare_tasks, prepare_idle_task, prepare_timer_service_task, idle_definition,
  timer_service_definition,
}
use just_rt.Init.Boot.{prepare_all}

push_words-stack :
    (words : ℕ → ℕ) (stack : ℕ) (values : List ℕ)
    → (push_words words stack values).1 ≡ stack - 4 * length values
unfolding push_words
push_words-stack words stack [] = omega arith
push_words-stack words stack (v ∷ values) =
    push_words-stack (update words (stack - 4) v) (stack - 4) values ∙ omega arith

-- The stack pointer of a new task: 17 words below the end of its stack.
abbrev pub initial_sp : TaskDefinition → ℕ
initial_sp d = d.stack_buffer + 4 * d.stack_words - 68

pub prepare_stack-sp :
    (b : Build) (words : ℕ → ℕ) (d : TaskDefinition) → (prepare_stack b words d).1 ≡ initial_sp d
unfolding prepare_stack build_initial_stack initial_frame
prepare_stack-sp b words d = push_words-stack _ _ _

-- A task as `prepare_task` leaves it, from what it was before.
abbrev pub ready_task : Task → TaskDefinition → Task
ready_task t d = described (record t { state = TaskState.ready }) d (initial_sp d)

-- `k'` is `k` but for its tasks and its memory of words.
abbrev pub SameRest : Kernel → Kernel → Type 0
SameRest k k' = k' ≡ record k { tasks = k'.tasks; words = k'.words }

prepare_task-tasks :
    (b : Build) (k : Kernel) (index : ℕ) (d : TaskDefinition)
    → (prepare_task b k index d).tasks ≡ update k.tasks index (ready_task (k.tasks index) d)
unfolding prepare_task
prepare_task-tasks b k index d = rw (prepare_stack-sp b k.words d)

prepare_tasks-SameRest :
    (b : Build) (tasks : ℕ → TaskDefinition) (rounds : ℕ) (k : Kernel) (index : ℕ)
    → SameRest k (prepare_tasks b tasks rounds k index)
unfolding prepare_tasks prepare_task
prepare_tasks-SameRest b tasks zero k index = refl
prepare_tasks-SameRest b tasks (suc rounds) k index =
    prepare_tasks-SameRest b tasks rounds (prepare_task b k index (tasks index)) (index + 1)

prepare_tasks-before :
    (b : Build) (tasks : ℕ → TaskDefinition) (rounds : ℕ) (k : Kernel) (index q : ℕ)
    → (q < index) ⊎ (index + rounds ≤ q)
    → (prepare_tasks b tasks rounds k index).tasks q ≡ k.tasks q
unfolding prepare_tasks
prepare_tasks-before b tasks zero k index q h = refl
prepare_tasks-before b tasks (suc rounds) k index q h =
    prepare_tasks-before b tasks rounds (prepare_task b k index (tasks index)) (index + 1) q
      (ground arith)
    ∙ ap (λ (f : ℕ → Task). f q) (prepare_task-tasks b k index (tasks index))
    ∙ update_ne k.tasks index q _ (ground arith)

pub prepare_tasks-ready :
    (b : Build) (tasks : ℕ → TaskDefinition) (rounds : ℕ) (k : Kernel) (index q : ℕ)
    → index ≤ q
    → q < index + rounds
    → (prepare_tasks b tasks rounds k index).tasks q ≡ ready_task (k.tasks q) (tasks q)
unfolding prepare_tasks
prepare_tasks-ready b tasks zero k index q h l = absurd (omega arith)
prepare_tasks-ready b tasks (suc rounds) k index q h l =
    let next : Kernel = prepare_task b k index (tasks index) in
    elim (Bool-cases (q == index)) [
      | inl e ↦
          let at : q ≡ index = ==→eq q index e in
          prepare_tasks-before b tasks rounds next (index + 1) q (inl (omega arith))
          ∙ ap (λ (f : ℕ → Task). f q) (prepare_task-tasks b k index (tasks index))
          ∙ rw at (update_self k.tasks index _)
      | inr ne ↦
          prepare_tasks-ready b tasks rounds next (index + 1) q (ground arith) (omega arith)
          ∙ ap (λ (t : Task). ready_task t (tasks q))
              (ap (λ (f : ℕ → Task). f q) (prepare_task-tasks b k index (tasks index))
                ∙ update_ne k.tasks index q _ (==→ne q index ne))
    ]

-- The timer service's task, which waits for ever, from what it was before.
abbrev pub service_task : Build → Kernel → Task → Task
service_task b k t =
    begin_wait (described t (timer_service_definition b) (initial_sp (timer_service_definition b)))
      timer_service_wait_object WaitKind.timer_service (wait_deadline k wait_forever)

prepare_timer_service_task-tasks :
    (b : Build) (k : Kernel) (index : ℕ)
    → (prepare_timer_service_task b k index).tasks
      ≡ update k.tasks index (service_task b k (k.tasks index))
unfolding prepare_timer_service_task
prepare_timer_service_task-tasks b k index =
    rw (prepare_stack-sp b k.words (timer_service_definition b))

-- The tasks that `JRT_KernelInit` prepares: those of the configuration, then the timer service,
-- which waits, then the idle task.
pub record Prepared (b : Build) (c : KernelConfig) (k k' : Kernel) : Type 0 where
  pub application : (i : ℕ) → i < c.task_count → k'.tasks i ≡ ready_task (k.tasks i) (c.tasks i)
  pub timer_service : k'.tasks c.task_count ≡ service_task b k (k.tasks c.task_count)
  pub idle :
      k'.tasks (c.task_count + 1) ≡ ready_task (k.tasks (c.task_count + 1)) (idle_definition b)
  pub others : (i : ℕ) → c.task_count + 1 < i → k'.tasks i ≡ k.tasks i
  pub rest :
      SameRest
        (record k {
          application_task_count = c.task_count;
          task_count = c.task_count + 2;
          timer_service_task_index = c.task_count;
        })
        k'

module _ (b : Build) (c : KernelConfig) (k : Kernel) where
  abbrev counted : Kernel
  counted = record k { application_task_count = c.task_count; task_count = c.task_count + 2 }

  abbrev configured : Kernel
  configured = prepare_tasks b c.tasks c.task_count counted 0

  configured-SameRest : SameRest counted configured
  configured-SameRest = prepare_tasks-SameRest b c.tasks c.task_count counted 0

  configured-kept : (i : ℕ) → c.task_count ≤ i → configured.tasks i ≡ k.tasks i
  configured-kept i l = prepare_tasks-before b c.tasks c.task_count counted 0 i (inr (omega arith))

  service_task-configured : (t : Task) → service_task b configured t ≡ service_task b k t
  service_task-configured t = ap (λ (m : Kernel). service_task b m t) configured-SameRest

  abbrev with_service : ℕ → Task
  with_service = update configured.tasks c.task_count (service_task b k (k.tasks c.task_count))

  abbrev serving : Kernel
  serving = prepare_timer_service_task b configured c.task_count

  serving-tasks : serving.tasks ≡ with_service
  serving-tasks =
      prepare_timer_service_task-tasks b configured c.task_count
      ∙ ap (update configured.tasks c.task_count) (
          service_task-configured (configured.tasks c.task_count)
          ∙ ap (service_task b k) (configured-kept c.task_count (omega arith)))

  serving-task_count : serving.task_count ≡ c.task_count + 2
  unfolding prepare_timer_service_task
  serving-task_count = ap (λ (m : Kernel). m.task_count) configured-SameRest

  prepare_all-tasks :
      (prepare_all b c k).tasks
      ≡ update with_service
          (c.task_count + 1)
          (ready_task (k.tasks (c.task_count + 1)) (idle_definition b))
  unfolding prepare_all prepare_idle_task
  prepare_all-tasks =
      let last : serving.task_count - 1 ≡ c.task_count + 1 =
        ap (λ (n : ℕ). n - 1) serving-task_count ∙ omega arith in
      let kept : serving.tasks (c.task_count + 1) ≡ k.tasks (c.task_count + 1) =
        ap (λ (f : ℕ → Task). f (c.task_count + 1)) serving-tasks
        ∙ update_ne configured.tasks c.task_count (c.task_count + 1) _ (omega arith)
        ∙ configured-kept (c.task_count + 1) (omega arith) in
      prepare_task-tasks b serving (serving.task_count - 1) (idle_definition b)
      ∙ ap (λ (i : ℕ). update serving.tasks i (ready_task (serving.tasks i) (idle_definition b)))
          last
      ∙ ap
          (λ (f : ℕ → Task).
            update f (c.task_count + 1)
              (ready_task (serving.tasks (c.task_count + 1)) (idle_definition b)))
          serving-tasks
      ∙ ap (λ (t : Task). update with_service (c.task_count + 1) (ready_task t (idle_definition b)))
          kept

  prepare_all-SameRest :
      SameRest
        (record k {
          application_task_count = c.task_count;
          task_count = c.task_count + 2;
          timer_service_task_index = c.task_count;
        })
        (prepare_all b c k)
  unfolding prepare_all prepare_idle_task prepare_timer_service_task prepare_task
  prepare_all-SameRest =
      ap
        (λ (m : Kernel). record m {
          timer_service_task_index = c.task_count;
          tasks = (prepare_all b c k).tasks;
          words = (prepare_all b c k).words;
        })
        configured-SameRest

  pub prepare_all-Prepared : Prepared b c k (prepare_all b c k)
  prepare_all-Prepared = record {
    application = λ i l.
        ap (λ (f : ℕ → Task). f i) prepare_all-tasks
        ∙ update_ne with_service (c.task_count + 1) i
            (ready_task (k.tasks (c.task_count + 1)) (idle_definition b)) (omega arith)
        ∙ update_ne configured.tasks c.task_count i (service_task b k (k.tasks c.task_count))
            (omega arith)
        ∙ prepare_tasks-ready b c.tasks c.task_count counted 0 i (omega arith) (omega arith);
    timer_service =
        ap (λ (f : ℕ → Task). f c.task_count) prepare_all-tasks
        ∙ update_ne with_service (c.task_count + 1) c.task_count
            (ready_task (k.tasks (c.task_count + 1)) (idle_definition b)) (omega arith)
        ∙ update_self configured.tasks c.task_count (service_task b k (k.tasks c.task_count));
    idle =
        ap (λ (f : ℕ → Task). f (c.task_count + 1)) prepare_all-tasks
        ∙ update_self with_service (c.task_count + 1)
            (ready_task (k.tasks (c.task_count + 1)) (idle_definition b));
    others = λ i l.
        ap (λ (f : ℕ → Task). f i) prepare_all-tasks
        ∙ update_ne with_service (c.task_count + 1) i
            (ready_task (k.tasks (c.task_count + 1)) (idle_definition b)) (omega arith)
        ∙ update_ne configured.tasks c.task_count i (service_task b k (k.tasks c.task_count))
            (omega arith)
        ∙ configured-kept i (omega arith);
    rest = prepare_all-SameRest;
  }
