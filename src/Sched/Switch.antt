-- ===== src/Sched/Switch.antt =====
-- What a context switch of task.c keeps: `pendsv_switch` over the task table.
use just_rt.Common.{
  ℕ, ◌<◌, ◌≡◌, ◌≢◌, ◌⊎◌, inl, inr, refl, false, arith, Bool-cases, ==→eq, ==_refl, ◌==◌, ◌&&◌,
  if◌then◌else◌, some, subst,
}
use just_rt.Mpu.Private.{PrivateSize, set_task_private_data-Programmed}
use just_rt.Kernel.{Mpu, Kernel, current_task}
use just_rt.Kernel.TaskState
use just_rt.Wait.Metadata.{TasksOk, TasksOk-update}
use just_rt.Sched.{
  next_index, leave_current, update_stack_usage, entered, enter_next, stack_fault, restored,
  pendsv_switch,
}
use just_rt.Sched.Choice.{Chosen, next_index-Chosen}

-- Only the current task is in the state RUNNING.
abbrev pub OneRunning : Kernel → Type 0
OneRunning k = (j : ℕ) → (k.tasks j).state ≡ TaskState.running → j ≡ k.current

-- A configured task that is ready, or that is the current one and running.
abbrev pub Runnable : Kernel → ℕ → Type 0
Runnable k j =
    (j < k.task_count)
    × (((k.tasks j).state ≡ TaskState.ready)
        ⊎ ((j ≡ k.current) × ((k.tasks j).state ≡ TaskState.running)))

module _ (k : Kernel) (sp : ℕ) where
  leave_current-state :
      (j : ℕ)
      → ((leave_current k sp).tasks j).state ≡ (
          if (j == k.current) && ((k.tasks j).state == TaskState.running)
          then TaskState.ready
          else (k.tasks j).state)
  unfolding leave_current update_stack_usage
  leave_current-state j = ground arith

  leave_current-TasksOk : TasksOk k.tasks → TasksOk (leave_current k sp).tasks
  unfolding leave_current update_stack_usage
  leave_current-TasksOk v j = ground (arith, v j)

  pub leave_current-frame :
      ((leave_current k sp).task_count ≡ k.task_count) × ((leave_current k sp).current ≡ k.current)
  unfolding leave_current update_stack_usage
  leave_current-frame = (refl, refl)

  leave_current-none_running :
      OneRunning k → (j : ℕ) → ((leave_current k sp).tasks j).state ≢ TaskState.running
  leave_current-none_running one j e = ground (arith, leave_current-state j, one j)

  pub leave_current-ready :
      (j : ℕ) → Runnable k j → ((leave_current k sp).tasks j).state ≡ TaskState.ready
  leave_current-ready j r = ground (arith, leave_current-state j)

-- The kernel after the choice, given that the chosen task was ready and none was running.
module _ (k : Kernel) (mpu : Mpu) (quiet : (j : ℕ) → (k.tasks j).state ≢ TaskState.running) where
  entered-OneRunning : OneRunning (entered k mpu)
  unfolding entered
  entered-OneRunning j e = elim (Bool-cases (j == next_index k.tasks k.task_count k.current)) [
    | inl same ↦ ==→eq j (next_index k.tasks k.task_count k.current) same
    | inr other ↦ absurd (quiet j (rw other at e))
  ]

  entered-running : (current_task (entered k mpu)).state ≡ TaskState.running
  unfolding entered
  entered-running = rw (==_refl (next_index k.tasks k.task_count k.current))

entered-TasksOk :
    (k : Kernel) (mpu : Mpu)
    → TasksOk k.tasks
    → (k.tasks (next_index k.tasks k.task_count k.current)).state ≡ TaskState.ready
    → TasksOk (entered k mpu).tasks
unfolding entered
entered-TasksOk k mpu v r =
    let next = next_index k.tasks k.task_count k.current in
    TasksOk-update k.tasks next _ v (ground (arith, v next))

-- What `pendsv_switch` returns with, `left` being the kernel once the current task has given up the
-- processor.
pub record SwitchedTo (k left k' : Kernel) : Type 0 where
  pub same : (left.task_count ≡ k.task_count) × (left.current ≡ k.current)
  pub chosen : (offset : ℕ) × Chosen left.tasks left.task_count left.current k'.current offset
  pub only : OneRunning k'
  pub running : (current_task k').state ≡ TaskState.running
  pub checked : TasksOk k'.tasks
  pub inside : k'.current < k'.task_count

-- The private regions of the configured tasks have sizes that `JRT_KernelInit` accepts.
abbrev pub PrivateSizes : Kernel → Type 0
PrivateSizes k = (i : ℕ) → i < k.task_count → PrivateSize (k.tasks i).private_data_size

pub leave_current-PrivateSizes :
    (k : Kernel) (sp : ℕ) → PrivateSizes k → PrivateSizes (leave_current k sp)
unfolding leave_current update_stack_usage
leave_current-PrivateSizes k sp sizes i h = subst PrivateSize (same i) (sizes i h)
  where
    same :
        (j : ℕ) → (k.tasks j).private_data_size ≡ ((leave_current k sp).tasks j).private_data_size
    same j = ground arith

-- The MPU takes the private region of the task chosen.
entered-mpu :
    (left : Kernel)
    → PrivateSize
        (left.tasks (next_index left.tasks left.task_count left.current)).private_data_size
    → (mpu : Mpu) × (enter_next left ≡ some (entered left mpu))
unfolding enter_next
entered-mpu left fits =
    let t = left.tasks (next_index left.tasks left.task_count left.current) in
    let (mpu, set, _) =
      set_task_private_data-Programmed left.mpu t.private_data_base t.private_data_size fits in
    (mpu, rw (enter_next, set) refl)

enter_next-SwitchedTo :
    (k left : Kernel) (j : ℕ)
    → (left.task_count ≡ k.task_count) × (left.current ≡ k.current)
    → left.current < left.task_count
    → j < left.task_count
    → (left.tasks j).state ≡ TaskState.ready
    → ((i : ℕ) → (left.tasks i).state ≢ TaskState.running)
    → TasksOk left.tasks
    → PrivateSizes left
    → (mpu : Mpu) × (enter_next left ≡ some (entered left mpu))
      × SwitchedTo k left (entered left mpu)
unfolding entered
enter_next-SwitchedTo k left j same inside hj r quiet v sizes =
    let (offset, found, chosen) =
      next_index-Chosen left.tasks left.task_count left.current j inside hj r in
    let next = next_index left.tasks left.task_count left.current in
    let within : next < left.task_count = omega (arith, chosen.place) in
    let (mpu, e) = entered-mpu left (sizes next within) in
    (
      mpu,
      e,
      record {
        same = same;
        chosen = (offset, chosen);
        only = entered-OneRunning left mpu quiet;
        running = entered-running left mpu quiet;
        checked = entered-TasksOk left mpu v chosen.ready;
        inside = within;
      },
    )

pub pendsv_switch-entered :
    (k : Kernel) (sp j : ℕ)
    → stack_fault (current_task k) sp ≡ false
    → k.current < k.task_count
    → Runnable k j
    → OneRunning k
    → TasksOk k.tasks
    → PrivateSizes k
    → (mpu : Mpu) × (pendsv_switch k sp
        ≡ restored
            (entered (leave_current k sp) mpu)
            (current_task (entered (leave_current k sp) mpu)).sp)
      × SwitchedTo k (leave_current k sp) (entered (leave_current k sp) mpu)
unfolding pendsv_switch
pendsv_switch-entered k sp j fine inside r one v sizes =
    let (count, current) = leave_current-frame k sp in
    let left : Kernel = leave_current k sp in
    let (mpu, e, to) =
      enter_next-SwitchedTo k left j (count, current) (rw (count, current) inside) (rw count r.0)
        (leave_current-ready k sp j r) (leave_current-none_running k sp one)
        (leave_current-TasksOk k sp v) (leave_current-PrivateSizes k sp sizes) in
    (mpu, rw (fine, e) refl, to)
