-- ===== src/Sched.antt =====
-- kernel/task.c: the stack check and the scheduler, `update_stack_usage` and `pendsv_switch`.
pub mod Passes
pub mod Choice
pub mod Switch
use just_rt.Common.{
  ℕ, zero, suc, ◌+◌, ◌-◌, ◌*◌, ◌/◌, ◌%◌, Bool, ◌&&◌, false, ◌||◌, Option, none, some, ltb, leb,
  ◌==◌, ◌!=◌, if◌then◌else◌, u32, add32, sub32, update,
}
use just_rt.Kernel.{Mpu, Task, Kernel, SchedStats, current_task}
use just_rt.Kernel.TaskState
use just_rt.Mpu.{set_task_private_data, set_task_stack_guard}

-- `JRT_TASK_STACK_FILL`
abbrev pub stack_fill : ℕ
stack_fill = 0xA5A5A5A5

-- `JRT_FATAL_STACK_OVERFLOW`
abbrev pub fatal_stack_overflow : ℕ
fatal_stack_overflow = 3

-- `while ((word < task->stack_top) && (*word == JRT_TASK_STACK_FILL)) word++;`: the words that hold
-- the fill pattern, of the `n` words from `word` on.
unfoldable pub filled_words : (ℕ → ℕ) → ℕ → ℕ → ℕ
filled_words words zero word = 0
filled_words words (suc n) word =
    let more = suc (filled_words words n (word + 4)) in if words word == stack_fill then more else 0

-- The words between two word addresses.
abbrev pub words_between : ℕ → ℕ → ℕ
words_between bottom top = (top - bottom) / 4

-- The test of `update_stack_usage` that ends in `kernel_fatal`.
unfoldable pub stack_fault : Task → ℕ → Bool
stack_fault t sp = ltb sp t.stack_bottom || ltb t.stack_top sp || (sp % 4 != 0)

-- `update_stack_usage` of the current task, once the test has passed.
unfoldable pub update_stack_usage : Kernel → ℕ → Kernel
update_stack_usage k sp =
    let t = current_task k in
    let size = words_between t.stack_bottom t.stack_top in
    let used = size - filled_words k.words size t.stack_bottom in
    record k {
      tasks = update k.tasks k.current (record t {
        minimum_sp = if ltb sp t.minimum_sp then sp else t.minimum_sp;
        high_water_words = used;
      });
      sched =
          if ltb k.sched.stack_high_water_words used
          then record k.sched { stack_high_water_words = used; stack_high_water_task = k.current }
          else k.sched;
    }

-- A ready task of a priority above `best`, at the index `offset` places after `base`.
abbrev pub index_at : ℕ → ℕ → ℕ → ℕ
index_at task_count base offset = (base + offset) % task_count

-- The first pass of `pendsv_switch`: the highest ready priority, with the rounds left.
unfoldable pub best_scan : (ℕ → Task) → ℕ → ℕ → ℕ → ℕ → ℕ → ℕ
best_scan tasks task_count base zero offset best = best
best_scan tasks task_count base (suc rounds) offset best =
    let t = tasks (index_at task_count base offset) in
    best_scan tasks task_count base rounds (offset + 1)
      (if (t.state == TaskState.ready) && ltb best t.priority then t.priority else best)

unfoldable pub best_priority : (ℕ → Task) → ℕ → ℕ → ℕ
best_priority tasks task_count base = best_scan tasks task_count base task_count 0 0

-- The second pass: the first offset at which a task of that priority is ready.
unfoldable pub find_scan : (ℕ → Task) → ℕ → ℕ → ℕ → ℕ → ℕ → Option ℕ
find_scan tasks task_count base best zero offset = none
find_scan tasks task_count base best (suc rounds) offset =
    let t = tasks (index_at task_count base offset) in
    let later = find_scan tasks task_count base best rounds (offset + 1) in
    if (t.state == TaskState.ready) && (t.priority == best) then some offset else later

-- `selected_offset`, and `none` in place of `task_count` if the pass finds no task.
unfoldable pub select_offset : (ℕ → Task) → ℕ → ℕ → Option ℕ
select_offset tasks task_count base =
    find_scan tasks task_count base (best_priority tasks task_count base) task_count 1

-- The index that becomes `g_current_task_index`.
unfoldable pub next_index : (ℕ → Task) → ℕ → ℕ → ℕ
next_index tasks task_count base = elim (select_offset tasks task_count base) [
  | none ↦ base
  | some offset ↦ index_at task_count base offset
]

-- The scheduler's counters after a choice.
unfoldable pub count_switch : SchedStats → ℕ → ℕ → ℕ → Option ℕ → SchedStats
count_switch c task_count base next selected =
    let iters = elim selected as (λ _. ℕ) [ none ↦ task_count | some offset ↦ offset ] in
    record c {
      pass1_iters_total = add32 c.pass1_iters_total task_count;
      pass2_iters_total = add32 c.pass2_iters_total iters;
      pass2_iters_max = if ltb c.pass2_iters_max iters then iters else c.pass2_iters_max;
      ready_scan_depth_max =
          if ltb iters task_count && ltb c.ready_scan_depth_max iters
          then iters
          else c.ready_scan_depth_max;
      context_switches = if next != base then add32 c.context_switches 1 else c.context_switches;
    }

-- What `pendsv_switch` does to the task that it leaves.
unfoldable pub leave_current : Kernel → ℕ → Kernel
leave_current k sp =
    let saved = record k {
      tasks = update k.tasks k.current (record (current_task k) { sp = sp });
    } in
    let checked = update_stack_usage saved sp in
    let t = current_task checked in
    record checked {
      tasks = update checked.tasks checked.current (record t {
        run_count = add32 t.run_count 1;
        state = if t.state == TaskState.running then TaskState.ready else t.state;
      });
    }

-- `task_stack_guard`: the guard words lie below the stack.
abbrev pub task_stack_guard : Task → ℕ
task_stack_guard t = t.stack_bottom - 32

-- `task_current_control`: the CONTROL value that PendSV restores, by the flag
-- JRT_TASK_FLAG_UNPRIVILEGED of the task.
unfoldable pub current_control : Kernel → ℕ
current_control k = if (current_task k).flags % 2 != 0 then 3 else 2

-- The switch to the task chosen, with what the MPU becomes.
unfoldable pub entered : Kernel → Mpu → Kernel
entered k mpu =
    let next = next_index k.tasks k.task_count k.current in
    let t = k.tasks next in
    record k {
      current = next;
      tasks = update k.tasks next (record t { state = TaskState.running });
      sched =
          count_switch k.sched k.task_count k.current next
            (select_offset k.tasks k.task_count k.current);
      mpu = set_task_stack_guard mpu (task_stack_guard t);
      switch_pending = false;
    }

-- The choice, and the switch to the task chosen; `none` where the loop that looks for the size of
-- its private region does not end.
unfoldable pub enter_next : Kernel → Option Kernel
enter_next k =
    let t = k.tasks (next_index k.tasks k.task_count k.current) in
    elim (set_task_private_data k.mpu t.private_data_base t.private_data_size) [
      | none ↦ none
      | some mpu ↦ some (entered k mpu)
    ]

-- How `pendsv_switch` ends: it returns the stack pointer to restore, or the kernel halts, or a loop
-- does not end.
pub data Switched : Type 0 where
  restored : Kernel → ℕ → Switched
  halted : Kernel → Switched
  hung : Switched

-- `kernel_fatal` after the fault record of `update_stack_usage`
unfoldable pub stack_overflow : Kernel → ℕ → Kernel
stack_overflow k sp = record k {
  tasks = update k.tasks k.current (record (current_task k) { sp = sp });
  sched = record k.sched { stack_fault = 1; stack_fault_task = k.current; stack_fault_sp = sp };
  fatal_reason = fatal_stack_overflow;
}

-- `pendsv_switch`; PendSV is no longer pending when its handler runs.
unfoldable pub pendsv_switch : Kernel → ℕ → Switched
pendsv_switch k sp =
    let finished : Switched = elim (enter_next (leave_current k sp)) [
      | none ↦ hung
      | some next ↦ restored next (current_task next).sp
    ] in
    if stack_fault (current_task k) sp then halted (stack_overflow k sp) else finished
