-- ===== src/Priority/Unchanged.antt =====
-- The priority walks of task.c change nothing of a task but its effective priority.
use just_rt.Common.{
  ℕ, zero, suc, ◌≡◌, inl, inr, refl, ◌∙◌, ap, arith, Option-cases, if_intro, ltb, leb, ◌==◌,
}
use just_rt.Kernel.{Task, Kernel}
use just_rt.Kernel.Objects.{Mutex}
use just_rt.Wait.{waits_on}
use just_rt.Wait.Select.{NoWaiter}
use just_rt.Wait.Metadata.{TasksOk}
use just_rt.Priority.{
  chain_next, inherit_priority, set_priority, effective_priority, restore_chain_loop,
  restore_priority_chain, restore_priority, restore_task,
}
use just_rt.Priority.Inherit.{inherit_loop-Raised}

-- `b` is `a` but for effective priorities.
pub record OnlyPriorities (a b : ℕ → Task) : Type 0 where
  pub same : (i : ℕ) → b i ≡ record (a i) { priority = (b i).priority }

pub OnlyPriorities-refl : (a : ℕ → Task) → OnlyPriorities a a
OnlyPriorities-refl a = record { same = λ i. refl }

pub OnlyPriorities-trans :
    {a b c : ℕ → Task} → OnlyPriorities a b → OnlyPriorities b c → OnlyPriorities a c
OnlyPriorities-trans {a} {b} {c} u v = record {
  same = λ i. v.same i ∙ ap (λ (t : Task). record t { priority = (c i).priority }) (u.same i);
}

set_priority-OnlyPriorities :
    (tasks : ℕ → Task) (id p : ℕ) → OnlyPriorities tasks (set_priority tasks id p)
set_priority-OnlyPriorities tasks id p = record { same = λ i. ground arith }

restore_chain_loop-OnlyPriorities :
    (mutexes : ℕ → Mutex) (task_count rounds : ℕ) (tasks : ℕ → Task) (id : ℕ)
    → OnlyPriorities tasks (restore_chain_loop mutexes task_count rounds tasks id)
unfolding restore_chain_loop
restore_chain_loop-OnlyPriorities mutexes task_count zero tasks id = OnlyPriorities-refl tasks
restore_chain_loop-OnlyPriorities mutexes task_count (suc rounds) tasks id =
    let e = effective_priority tasks mutexes task_count id in
    let r = set_priority tasks id e in
    let once : OnlyPriorities tasks r = set_priority-OnlyPriorities tasks id e in
    if_intro (OnlyPriorities tasks) (leb task_count id) (λ _. OnlyPriorities-refl tasks)
      (λ _.
        if_intro (OnlyPriorities tasks) (e == (tasks id).priority) (λ _. once)
          (λ _. elim (Option-cases (chain_next (r id) mutexes task_count id)) [
            | inl last ↦ rw last once
            | inr (next, more) ↦ rw more (
                OnlyPriorities-trans once
                  (restore_chain_loop-OnlyPriorities mutexes task_count rounds r next))
          ]))

pub inherit_priority-OnlyPriorities :
    (k : Kernel) (id p : ℕ) → OnlyPriorities k.tasks (inherit_priority k id p).tasks
inherit_priority-OnlyPriorities k id p = record {
  same = (inherit_loop-Raised k.mutexes k.task_count k.task_count k.tasks id p).same;
}

pub restore_priority_chain-OnlyPriorities :
    (k : Kernel) (id : ℕ) → OnlyPriorities k.tasks (restore_priority_chain k id).tasks
restore_priority_chain-OnlyPriorities k id =
    restore_chain_loop-OnlyPriorities k.mutexes k.task_count k.task_count k.tasks id

pub restore_priority-OnlyPriorities :
    (k : Kernel) (id : ℕ) → OnlyPriorities k.tasks (restore_priority k id).tasks
unfolding restore_task
restore_priority-OnlyPriorities k id =
    if_intro (OnlyPriorities k.tasks) (ltb id k.task_count)
      (λ _. set_priority-OnlyPriorities k.tasks id _) (λ _. OnlyPriorities-refl k.tasks)

-- What does not read priorities is unchanged.
module _ {a b : ℕ → Task} (u : OnlyPriorities a b) where
  pub waits_on-OnlyPriorities :
      (object wait_kind j : ℕ) → waits_on b object wait_kind j ≡ waits_on a object wait_kind j
  unfolding waits_on
  waits_on-OnlyPriorities object wait_kind j = rw (u.same j)

  pub NoWaiter-OnlyPriorities :
      (object wait_kind n : ℕ) → NoWaiter a object wait_kind n → NoWaiter b object wait_kind n
  NoWaiter-OnlyPriorities object wait_kind n quiet j h =
      waits_on-OnlyPriorities object wait_kind j ∙ quiet j h

  pub TasksOk-OnlyPriorities : TasksOk a → TasksOk b
  TasksOk-OnlyPriorities v i = rw (u.same i) (ground (arith, v i))
