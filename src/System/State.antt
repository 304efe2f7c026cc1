-- ===== src/System/State.antt =====
-- The states of the kernel of task.c, sync.c and timer.c that its calls and interrupts keep.
use just_rt.Common.{Bool, ℕ, ◌+◌, ◌<◌, ◌≡◌, inl, inr, refl, ◌∙◌, subst, sym, arith, List}
use just_rt.Kernel.{Task, Kernel, Counters}
use just_rt.Kernel.Objects.{Queue}
use just_rt.Kernel.TaskState
use just_rt.Wait.{Outcome, outcome_kernel}
use just_rt.Wait.Metadata.{TaskOk}
use just_rt.Timer.Calls.{TimersOk}
use just_rt.Sync.Mutex.Registry.{AllOk}
use just_rt.Sync.Mutex.Registry
use just_rt.Mpu.Private.{PrivateSize}
use just_rt.Sched.Switch.{OneRunning, Runnable, PrivateSizes}
use just_rt.Tick.Check.{KernelOk}
use just_rt.System.Moves.{Calm, Moves, Moves-refl, Moves-trans}

-- The index of the idle task, the last of the kernel's own two.
abbrev pub idle_index : Kernel → ℕ
idle_index k = k.application_task_count + 1

-- The registered mutexes are a null-terminated list and are in accepted states.
abbrev pub MutexesOk : Kernel → Type 0
MutexesOk k = (xs : List ℕ) × Registry.Registered k xs × AllOk k.task_count k.mutexes xs

-- The table of tasks has the two tasks of the kernel and a current one; nothing but the current
-- task runs; the idle task can run; the private regions have sizes that `JRT_KernelInit` accepts; the
-- wait metadata and both lists are as `kernel_check_invariants_locked` wants them.
pub record SystemOk (k : Kernel) : Type 0 where
  pub size : k.task_count < 4294967296
  pub internal : k.task_count ≡ k.application_task_count + 2
  pub inside : k.current < k.task_count
  pub only : OneRunning k
  pub idle : Runnable k (idle_index k)
  pub regions : PrivateSizes k
  pub checked : KernelOk k

-- `k'` has the counts and the current task of `k`, and its tasks moved.
pub record Moved (k k' : Kernel) : Type 0 where
  pub tasks : Moves (idle_index k) k.tasks k'.tasks
  pub task_count : k'.task_count ≡ k.task_count
  pub application : k'.application_task_count ≡ k.application_task_count
  pub current : k'.current ≡ k.current

pub record SameMutexes (k k' : Kernel) : Type 0 where
  pub mutexes : k'.mutexes ≡ k.mutexes
  pub list : k'.mutex_list ≡ k.mutex_list
  pub nodes : k'.mutex_nodes ≡ k.mutex_nodes

pub record SameTimers (k k' : Kernel) : Type 0 where
  pub timers : k'.timers ≡ k.timers
  pub list : k'.timer_list ≡ k.timer_list
  pub nodes : k'.timer_nodes ≡ k.timer_nodes

-- A step that leaves both lists alone.
pub record Plain (k k' : Kernel) : Type 0 where
  pub moved : Moved k k'
  pub mutexes : SameMutexes k k'
  pub timers : SameTimers k k'

abbrev pub PlainOutcome : Kernel → Outcome → Type 0
PlainOutcome k o = Plain k (outcome_kernel o)

pub Plain-refl : (k : Kernel) → Plain k k
Plain-refl k = record {
  moved = record {
    tasks = Moves-refl (idle_index k) k.tasks;
    task_count = refl;
    application = refl;
    current = refl;
  };
  mutexes = record { mutexes = refl; list = refl; nodes = refl };
  timers = record { timers = refl; list = refl; nodes = refl };
}

pub Moved-trans : {a b c : Kernel} → Moved a b → Moved b c → Moved a c
Moved-trans {a} {b} {c} u v = record {
  tasks = Moves-trans u.tasks (subst (λ n. Moves (n + 1) b.tasks c.tasks) u.application v.tasks);
  task_count = v.task_count ∙ u.task_count;
  application = v.application ∙ u.application;
  current = v.current ∙ u.current;
}

pub Plain-trans : {a b c : Kernel} → Plain a b → Plain b c → Plain a c
Plain-trans u v = record {
  moved = Moved-trans u.moved v.moved;
  mutexes = record {
    mutexes = v.mutexes.mutexes ∙ u.mutexes.mutexes;
    list = v.mutexes.list ∙ u.mutexes.list;
    nodes = v.mutexes.nodes ∙ u.mutexes.nodes;
  };
  timers = record {
    timers = v.timers.timers ∙ u.timers.timers;
    list = v.timers.list ∙ u.timers.list;
    nodes = v.timers.nodes ∙ u.timers.nodes;
  };
}

-- A change of the tasks alone.
pub tasks-Plain :
    (k : Kernel) (tasks : ℕ → Task)
    → Moves (idle_index k) k.tasks tasks
    → Plain k (record k { tasks = tasks })
tasks-Plain k tasks m = record {
  moved = record { tasks = m; task_count = refl; application = refl; current = refl };
  mutexes = record { mutexes = refl; list = refl; nodes = refl };
  timers = record { timers = refl; list = refl; nodes = refl };
}

-- A change of what no invariant reads.
pub others-Plain :
    (k : Kernel) (switch_pending : Bool) (bytes semaphores : ℕ → ℕ) (queues : ℕ → Queue)
    (event_groups : ℕ → ℕ) (counters : Counters)
    → Plain k (record k {
      switch_pending = switch_pending;
      bytes = bytes;
      semaphores = semaphores;
      queues = queues;
      event_groups = event_groups;
      counters = counters;
    })
others-Plain k switch_pending bytes semaphores queues event_groups counters = record {
  moved = record {
    tasks = Moves-refl (idle_index k) k.tasks;
    task_count = refl;
    application = refl;
    current = refl;
  };
  mutexes = record { mutexes = refl; list = refl; nodes = refl };
  timers = record { timers = refl; list = refl; nodes = refl };
}

pub SameMutexes-MutexesOk :
    (k k' : Kernel) → SameMutexes k k' → k'.task_count ≡ k.task_count → MutexesOk k → MutexesOk k'
SameMutexes-MutexesOk k k' s e (xs, r, ok) = (
  xs,
  record { chain = rw (s.mutexes, s.list) r.chain; counted = s.nodes ∙ r.counted },
  rw (s.mutexes, e) ok,
)

pub SameTimers-TimersOk : (k k' : Kernel) → SameTimers k k' → TimersOk k → TimersOk k'
SameTimers-TimersOk k k' s ((xs, r), all) = (
  (xs, record { chain = rw (s.timers, s.list) r.chain; counted = s.nodes ∙ r.counted }),
  λ p. rw s.timers (all p),
)

-- A task that is made to run ran before, and whoever can run but the idle task can do so later.
module _ (k k' : Kernel) (ok : SystemOk k) (m : Moved k k') where
  moved-starts :
      (i : ℕ) → (k'.tasks i).state ≡ TaskState.running → (k.tasks i).state ≡ TaskState.running
  moved-starts i e = elim (m.tasks.each i) [ inl calm ↦ calm.starts e | inr left ↦ left.1.starts e ]

  moved-keeps : (i : ℕ) → TaskOk (k.tasks i) → TaskOk (k'.tasks i)
  moved-keeps i v = elim (m.tasks.each i) [ inl calm ↦ calm.keeps v | inr left ↦ left.1.keeps v ]

  moved-region : (i : ℕ) → (k'.tasks i).private_data_size ≡ (k.tasks i).private_data_size
  moved-region i = elim (m.tasks.each i) [ inl calm ↦ calm.region | inr left ↦ left.1.region ]

  moved-PrivateSizes : PrivateSizes k'
  moved-PrivateSizes i h =
      subst PrivateSize (sym (moved-region i)) (ok.regions i (rw m.task_count at h))

  idle_index-Calm : Calm (k.tasks (idle_index k)) (k'.tasks (idle_index k))
  idle_index-Calm = elim (m.tasks.each (idle_index k)) [
    | inl calm ↦ calm
    | inr left ↦ absurd (left.0 refl)
  ]

  idle_runnable : Runnable k' (idle_index k)
  idle_runnable = elim ok.idle.1 [
    | inl waits ↦ (omega (arith, ok.idle.0, m.task_count), inl (idle_index-Calm.ready waits))
    | inr (here, runs) ↦ (
      omega (arith, ok.idle.0, m.task_count),
      elim (idle_index-Calm.running runs) [
        | inl still ↦ inr (here ∙ sym m.current, still)
        | inr waits ↦ inl waits
      ],
    )
  ]

-- A move of the tasks, with lists that are still well formed.
pub SystemOk-Moved :
    (k k' : Kernel) → SystemOk k → Moved k k' → MutexesOk k' → TimersOk k' → SystemOk k'
SystemOk-Moved k k' ok m mutexes timers = record {
  size = rw m.task_count ok.size;
  internal = rw (m.task_count, m.application) ok.internal;
  inside = rw (m.current, m.task_count) ok.inside;
  only = λ i e. ok.only i (moved-starts k k' ok m i e) ∙ sym m.current;
  idle = rw m.application (idle_runnable k k' ok m);
  regions = moved-PrivateSizes k k' ok m;
  checked = record {
    tasks = λ i. moved-keeps k k' ok m i (ok.checked.tasks i);
    mutexes = mutexes;
    timers = timers;
  };
}

pub SystemOk-Plain : (k k' : Kernel) → SystemOk k → Plain k k' → SystemOk k'
SystemOk-Plain k k' ok p =
    SystemOk-Moved k k' ok p.moved
      (SameMutexes-MutexesOk k k' p.mutexes p.moved.task_count ok.checked.mutexes)
      (SameTimers-TimersOk k k' p.timers ok.checked.timers)
