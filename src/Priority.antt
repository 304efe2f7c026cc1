-- ===== src/Priority.antt =====
-- kernel/task.c: priority inheritance, `task_inherit_priority`, `restore_priority_chain` and
-- `task_restore_priority`.
pub mod Effective
pub mod Inherit
pub mod Unchanged
use just_rt.Common.{
  ℕ, zero, suc, ◌+◌, Bool, ◌&&◌, ◌||◌, Option, none, some, ltb, leb, ◌==◌, ◌!=◌, if◌then◌else◌,
  update,
}
use just_rt.Kernel.{Task, Kernel}
use just_rt.Kernel.Objects.{Mutex}
use just_rt.Kernel.TaskState
use just_rt.Kernel.WaitKind

-- The task that owns the mutex on which task `id` is blocked, if the walk up the ownership chain
-- goes on from there: the two guards that end a round of both chain walks.
unfoldable pub chain_next : Task → (ℕ → Mutex) → ℕ → ℕ → Option ℕ
chain_next t mutexes task_count id =
    if (t.state != TaskState.blocked) || (t.wait_kind != WaitKind.mutex) || (t.wait_object == 0)
    then none
    else let m = mutexes t.wait_object in
      if (m.locked == 0) || leb task_count m.owner || (m.owner == id) then none else some m.owner

-- One round's write of `task_inherit_priority`
unfoldable pub raise_priority : (ℕ → Task) → ℕ → ℕ → ℕ → Task
raise_priority tasks id priority =
    if ltb (tasks id).priority priority
    then update tasks id (record (tasks id) { priority = priority })
    else tasks

-- The loop of `task_inherit_priority`, with the rounds left.
unfoldable pub inherit_loop : (ℕ → Mutex) → ℕ → ℕ → (ℕ → Task) → ℕ → ℕ → ℕ → Task
inherit_loop mutexes task_count zero tasks owner_id priority = tasks
inherit_loop mutexes task_count (suc rounds) tasks owner_id priority =
    let raised = raise_priority tasks owner_id priority in
    let onward : ℕ → Task = elim (chain_next (raised owner_id) mutexes task_count owner_id) [
      | none ↦ raised
      | some next ↦ inherit_loop mutexes task_count rounds raised next priority
    ] in
    if leb task_count owner_id then tasks else onward

-- `task_inherit_priority`
abbrev pub inherit_priority : Kernel → ℕ → ℕ → Kernel
inherit_priority k task_id priority = record k {
  tasks = inherit_loop k.mutexes k.task_count k.task_count k.tasks task_id priority;
}

-- Task `scan` is blocked on a locked mutex that task `id` owns.
unfoldable pub waits_for : (ℕ → Task) → (ℕ → Mutex) → ℕ → ℕ → Bool
waits_for tasks mutexes id scan =
    let t = tasks scan in
    ((t.state == TaskState.blocked) && (t.wait_kind == WaitKind.mutex) && (t.wait_object != 0))
    && (((mutexes t.wait_object).locked != 0) && ((mutexes t.wait_object).owner == id))

-- The scan for the effective priority, with the rounds left.
unfoldable pub effective_scan : (ℕ → Task) → (ℕ → Mutex) → ℕ → ℕ → ℕ → ℕ → ℕ
effective_scan tasks mutexes id zero scan effective = effective
effective_scan tasks mutexes id (suc rounds) scan effective =
    effective_scan tasks mutexes id rounds (scan + 1) (
      if waits_for tasks mutexes id scan && ltb effective (tasks scan).priority
      then (tasks scan).priority
      else effective)

unfoldable pub effective_priority : (ℕ → Task) → (ℕ → Mutex) → ℕ → ℕ → ℕ
effective_priority tasks mutexes task_count id =
    effective_scan tasks mutexes id task_count 0 (tasks id).base_priority

abbrev pub set_priority : (ℕ → Task) → ℕ → ℕ → ℕ → Task
set_priority tasks id priority = update tasks id (record (tasks id) { priority = priority })

-- The loop of `restore_priority_chain`, with the rounds left.
unfoldable pub restore_chain_loop : (ℕ → Mutex) → ℕ → ℕ → (ℕ → Task) → ℕ → ℕ → Task
restore_chain_loop mutexes task_count zero tasks id = tasks
restore_chain_loop mutexes task_count (suc rounds) tasks id =
    let effective = effective_priority tasks mutexes task_count id in
    let restored = set_priority tasks id effective in
    let onward : ℕ → Task = elim (chain_next (restored id) mutexes task_count id) [
      | none ↦ restored
      | some next ↦ restore_chain_loop mutexes task_count rounds restored next
    ] in
    if leb task_count id
    then tasks
    else (if effective == (tasks id).priority then restored else onward)

-- `restore_priority_chain`
abbrev pub restore_priority_chain : Kernel → ℕ → Kernel
restore_priority_chain k id = record k {
  tasks = restore_chain_loop k.mutexes k.task_count k.task_count k.tasks id;
}

-- The guard and the write of `task_restore_priority`
unfoldable pub restore_task : (ℕ → Mutex) → ℕ → (ℕ → Task) → ℕ → ℕ → Task
restore_task mutexes task_count tasks id =
    if ltb id task_count
    then set_priority tasks id (effective_priority tasks mutexes task_count id)
    else tasks

-- `task_restore_priority`
abbrev pub restore_priority : Kernel → ℕ → Kernel
restore_priority k id = record k { tasks = restore_task k.mutexes k.task_count k.tasks id }
