-- ===== src/Priority/Inherit.antt =====
-- What `task_inherit_priority` of task.c does to the tasks of an ownership chain.
use just_rt.Common.{
  ℕ, zero, suc, ◌<◌, ◌≤◌, ◌≡◌, inl, inr, refl, ◌∙◌, ap, arith, some, Bool-cases, Option-cases,
  lt→leb, leb,
}
use just_rt.Kernel.{Task, Kernel}
use just_rt.Kernel.Objects.{Mutex}
use just_rt.Priority.{chain_next, raise_priority, inherit_loop, inherit_priority}

-- `b` is `a` but for priorities, which are no lower.
pub record Raised (a b : ℕ → Task) : Type 0 where
  pub same : (i : ℕ) → b i ≡ record (a i) { priority = (b i).priority }
  pub higher : (i : ℕ) → (a i).priority ≤ (b i).priority

-- Task `m` is reached from task `id` by `n` steps, each from a configured task that is blocked on
-- a locked mutex to the task that owns it.
pub data OnChain (tasks : ℕ → Task) (mutexes : ℕ → Mutex) (task_count : ℕ)
    : ℕ → ℕ → ℕ → Type 0 where
  start : {id : ℕ} → OnChain tasks mutexes task_count id zero id
  step :
      {id n m next : ℕ}
      → chain_next (tasks id) mutexes task_count id ≡ some next
      → OnChain tasks mutexes task_count next n m
      → OnChain tasks mutexes task_count id (suc n) m

Raised-refl : (a : ℕ → Task) → Raised a a
Raised-refl a = record { same = λ i. refl; higher = λ i. omega arith }

Raised-trans : {a b c : ℕ → Task} → Raised a b → Raised b c → Raised a c
Raised-trans {a} {b} {c} u v = record {
  same = λ i. v.same i ∙ ap (λ (t : Task). record t { priority = (c i).priority }) (u.same i);
  higher = λ i. omega (arith, u.higher i, v.higher i);
}

raise_priority-Raised : (tasks : ℕ → Task) (id p : ℕ) → Raised tasks (raise_priority tasks id p)
unfolding raise_priority
raise_priority-Raised tasks id p = record { same = λ i. ground arith; higher = λ i. ground arith }

raise_priority_self : (tasks : ℕ → Task) (id p : ℕ) → p ≤ (raise_priority tasks id p id).priority
unfolding raise_priority
raise_priority_self tasks id p = ground arith

module _ (mutexes : ℕ → Mutex) (task_count : ℕ) where
  -- The walk reads nothing that `Raised` lets change.
  chain_next-Raised :
      {a b : ℕ → Task}
      → Raised a b
      → (id : ℕ) → chain_next (b id) mutexes task_count id ≡ chain_next (a id) mutexes task_count id
  unfolding chain_next
  chain_next-Raised {a} {b} u id = ap (λ (t : Task). chain_next t mutexes task_count id) (u.same id)

  pub inherit_loop-Raised :
      (rounds : ℕ) (tasks : ℕ → Task) (id p : ℕ)
      → Raised tasks (inherit_loop mutexes task_count rounds tasks id p)
  unfolding inherit_loop
  inherit_loop-Raised zero tasks id p = Raised-refl tasks
  inherit_loop-Raised (suc rounds) tasks id p = elim (Bool-cases (leb task_count id)) [
    | inl out ↦ rw out (Raised-refl tasks)
    | inr in_range ↦
        elim (Option-cases (chain_next (raise_priority tasks id p id) mutexes task_count id)) [
          | inl last ↦ rw (in_range, last) (raise_priority-Raised tasks id p)
          | inr (next, more) ↦
              rw (in_range, more)
                (Raised-trans (raise_priority-Raised tasks id p)
                  (inherit_loop-Raised rounds (raise_priority tasks id p) next p))
        ]
  ]

  OnChain-Raised :
      {a b : ℕ → Task} {id n m : ℕ}
      → Raised a b
      → OnChain a mutexes task_count id n m
      → OnChain b mutexes task_count id n m
  OnChain-Raised u start = start
  OnChain-Raised u (step {id = i} e c) = step (chain_next-Raised u i ∙ e) (OnChain-Raised u c)

  chain_next-lt :
      (t : Task) (id : ℕ) {next : ℕ}
      → chain_next t mutexes task_count id ≡ some next
      → next < task_count
  unfolding chain_next
  chain_next-lt t id e = ground arith

  inherit_loop-covers :
      (rounds : ℕ) (tasks : ℕ → Task) (p : ℕ) {id n m : ℕ}
      → OnChain tasks mutexes task_count id n m
      → n < rounds
      → id < task_count
      → p ≤ (inherit_loop mutexes task_count rounds tasks id p m).priority
  unfolding inherit_loop
  inherit_loop-covers zero tasks p c h l = absurd (omega arith)
  inherit_loop-covers (suc rounds) tasks p (start {id = i}) h l =
      rw (lt→leb i task_count l)
        (elim (Option-cases (chain_next (raise_priority tasks i p i) mutexes task_count i)) [
          | inl last ↦ rw last (raise_priority_self tasks i p)
          | inr (next, more) ↦ rw more (
              omega (
                arith,
                raise_priority_self tasks i p,
                (inherit_loop-Raised rounds (raise_priority tasks i p) next p).higher i,
              ))
        ])
  inherit_loop-covers (suc rounds) tasks p (step {id = i} {next = o} e c) h l =
      rw (lt→leb i task_count l, chain_next-Raised (raise_priority-Raised tasks i p) i, e)
        (inherit_loop-covers rounds (raise_priority tasks i p) p
          (OnChain-Raised (raise_priority-Raised tasks i p) c) (omega arith)
          (chain_next-lt (tasks i) i e))

pub inherit_priority_lem :
    (k : Kernel) (id p : ℕ) {n m : ℕ}
    → id < k.task_count
    → n < k.task_count
    → OnChain k.tasks k.mutexes k.task_count id n m
    → Raised k.tasks (inherit_priority k id p).tasks
      × (p ≤ ((inherit_priority k id p).tasks m).priority)
inherit_priority_lem k id p l h c = (
  inherit_loop-Raised k.mutexes k.task_count k.task_count k.tasks id p,
  inherit_loop-covers k.mutexes k.task_count k.task_count k.tasks p c h l,
)
