-- ===== src/System/Moves.antt =====
-- What the calls and the interrupts of the kernel may do to its table of tasks.
use just_rt.Common.{
  ℕ, ◌≤◌, ◌≡◌, ◌≢◌, ◌⊎◌, inl, inr, refl, subst, sym, arith, ◌==◌, Bool-cases, ==→eq, update, ◌∙◌,
}
use just_rt.Kernel.{Task}
use just_rt.Kernel.TaskState
use just_rt.Kernel.WaitKind
use just_rt.Wait.{Deadline, begin_wait, end_wait}
use just_rt.Wait.Metadata.{TaskOk, begin_wait-TaskOk}
use just_rt.Priority.Unchanged.{OnlyPriorities}

-- The task may be woken, but not be put to sleep or made to run; its private region stays.
pub record Calm (t t' : Task) : Type 0 where
  pub keeps : TaskOk t → TaskOk t'
  pub region : t'.private_data_size ≡ t.private_data_size
  pub starts : t'.state ≡ TaskState.running → t.state ≡ TaskState.running
  pub ready : t.state ≡ TaskState.ready → t'.state ≡ TaskState.ready
  pub running :
      t.state ≡ TaskState.running → (t'.state ≡ TaskState.running) ⊎ (t'.state ≡ TaskState.ready)

-- The task may leave the processor.
pub record Yields (t t' : Task) : Type 0 where
  pub keeps : TaskOk t → TaskOk t'
  pub region : t'.private_data_size ≡ t.private_data_size
  pub starts : t'.state ≡ TaskState.running → t.state ≡ TaskState.running

-- Every task but the one at `idle` may leave the processor, and none is made to run.
pub record Moves (idle : ℕ) (tasks tasks' : ℕ → Task) : Type 0 where
  pub each : (i : ℕ) → Calm (tasks i) (tasks' i) ⊎ ((i ≢ idle) × Yields (tasks i) (tasks' i))

pub Calm-refl : (t : Task) → Calm t t
Calm-refl t = record {
  keeps = λ v. v;
  region = refl;
  starts = λ e. e;
  ready = λ e. e;
  running = λ e. inl e;
}

Calm-Yields : {t t' : Task} → Calm t t' → Yields t t'
Calm-Yields a = record { keeps = a.keeps; region = a.region; starts = a.starts }

Calm-trans : {a b c : Task} → Calm a b → Calm b c → Calm a c
Calm-trans u v = record {
  keeps = λ ok. v.keeps (u.keeps ok);
  region = v.region ∙ u.region;
  starts = λ e. u.starts (v.starts e);
  ready = λ e. v.ready (u.ready e);
  running = λ e. elim (u.running e) [ inl runs ↦ v.running runs | inr waits ↦ inr (v.ready waits) ];
}

Yields-trans : {a b c : Task} → Yields a b → Yields b c → Yields a c
Yields-trans u v = record {
  keeps = λ ok. v.keeps (u.keeps ok);
  region = v.region ∙ u.region;
  starts = λ e. u.starts (v.starts e);
}

pub Moves-refl : (idle : ℕ) (tasks : ℕ → Task) → Moves idle tasks tasks
Moves-refl idle tasks = record { each = λ i. inl (Calm-refl (tasks i)) }

pub Moves-trans : {idle : ℕ} {a b c : ℕ → Task} → Moves idle a b → Moves idle b c → Moves idle a c
Moves-trans u v = record {
  each = λ i. elim (u.each i) [
    | inl x ↦ elim (v.each i) [
      | inl y ↦ inl (Calm-trans x y)
      | inr y ↦ inr (y.0, Yields-trans (Calm-Yields x) y.1)
    ]
    | inr x ↦ elim (v.each i) [
      | inl y ↦ inr (x.0, Yields-trans x.1 (Calm-Yields y))
      | inr y ↦ inr (x.0, Yields-trans x.1 y.1)
    ]
  ];
}

-- A write to one task.
pub Calm-Moves :
    (idle : ℕ) (tasks : ℕ → Task) (q : ℕ) (t : Task)
    → Calm (tasks q) t
    → Moves idle tasks (update tasks q t)
Calm-Moves idle tasks q t calm = record {
  each = λ i. elim (Bool-cases (i == q)) [
    | inl e ↦ inl (rw e (subst (λ j. Calm (tasks j) t) (sym (==→eq i q e)) calm))
    | inr e ↦ inl (rw e (Calm-refl (tasks i)))
  ];
}

pub Yields-Moves :
    (idle : ℕ) (tasks : ℕ → Task) (q : ℕ) (t : Task)
    → q ≢ idle
    → Yields (tasks q) t
    → Moves idle tasks (update tasks q t)
Yields-Moves idle tasks q t other yields = record {
  each = λ i. elim (Bool-cases (i == q)) [
    | inl e ↦ inr (
      subst (λ j. j ≢ idle) (sym (==→eq i q e)) other,
      rw e (subst (λ j. Yields (tasks j) t) (sym (==→eq i q e)) yields),
    )
    | inr e ↦ inl (rw e (Calm-refl (tasks i)))
  ];
}

-- The end of a wait, and the begin of one.
pub end_wait-Calm : (t : Task) (result : ℕ) → Calm t (end_wait t result)
unfolding end_wait
end_wait-Calm t result = record {
  keeps = λ _. ground arith;
  region = refl;
  starts = λ e. absurd (omega (arith, e));
  ready = λ _. refl;
  running = λ _. inr refl;
}

pub begin_wait-Yields :
    (t : Task) (object wait_kind : ℕ) (d : Deadline)
    → object ≢ 0
    → wait_kind ≢ WaitKind.idle
    → wait_kind ≤ WaitKind.timer_service
    → Yields t (begin_wait t object wait_kind d)
unfolding begin_wait
begin_wait-Yields t object wait_kind d ho hk hl = record {
  keeps = λ _. begin_wait-TaskOk t object wait_kind d ho hk hl;
  region = refl;
  starts = λ e. absurd (omega (arith, e));
}

-- A task of which only the priority changes.
pub OnlyPriorities-Moves : (idle : ℕ) {a b : ℕ → Task} → OnlyPriorities a b → Moves idle a b
OnlyPriorities-Moves idle {a} {b} u = record {
  each = λ i. inl (
      subst (Calm (a i)) (sym (u.same i)) (record {
        keeps = λ v. ground (arith, v);
        region = refl;
        starts = λ e. e;
        ready = λ e. e;
        running = λ e. inl e;
      }));
}
