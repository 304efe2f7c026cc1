-- ===== src/Tick/Step.antt =====
-- What one tick of task.c does to each task.
use just_rt.Common.{
  sub32, ◌-◌, subst, ℕ, zero, suc, ◌+◌, ◌<◌, ◌≡◌, inl, inr, refl, ap, ◌∙◌, sym, true, false, arith,
  ◌==◌, ◌&&◌, ltb, leb, if◌then◌else◌, if_intro, Bool-cases, Option-cases, ==→eq, ==→ne, ◌≤◌, ◌⊎◌,
  ◌≢◌,
}
use just_rt.Kernel.{Task, Kernel}
use just_rt.Kernel.TaskState
use just_rt.Kernel.WaitKind
use just_rt.Wait.{end_wait, expired}
use just_rt.Priority.Unchanged.{
  OnlyPriorities, OnlyPriorities-refl, OnlyPriorities-trans, restore_priority_chain-OnlyPriorities,
}
use just_rt.Tick.{
  sleeps, count_sleep, timed_out, ticked_task, timeout_owner, ended, tick_task, tick_scan,
}

-- The step of a task neither reads nor writes its effective priority.
ticked_task-priority :
    (now p : ℕ) (t : Task)
    → ticked_task now (record t { priority = p }) ≡ record (ticked_task now t) { priority = p }
unfolding ticked_task sleeps timed_out count_sleep end_wait
ticked_task-priority now p t = ground arith

tick_task-OnlyPriorities :
    (k : Kernel) (i : ℕ) → OnlyPriorities (ended k i).tasks (tick_task k i).tasks
unfolding tick_task
tick_task-OnlyPriorities k i =
    if_intro (λ (k' : Kernel). OnlyPriorities (ended k i).tasks k'.tasks)
      (timed_out k.ticks (k.tasks i))
      (λ _. elim (Option-cases (timeout_owner (k.tasks i) k.mutexes k.task_count)) [
        | inl e ↦ rw e (OnlyPriorities-refl (ended k i).tasks)
        | inr (owner, e) ↦ rw e (restore_priority_chain-OnlyPriorities (ended k i) owner)
      ])
      (λ _. OnlyPriorities-refl (ended k i).tasks)

tick_task-ticks : (k : Kernel) (i : ℕ) → (tick_task k i).ticks ≡ k.ticks
unfolding tick_task
tick_task-ticks k i =
    if_intro (λ (k' : Kernel). k'.ticks ≡ k.ticks) (timed_out k.ticks (k.tasks i))
      (λ _. elim (Option-cases (timeout_owner (k.tasks i) k.mutexes k.task_count)) [
        | inl e ↦ rw e
        | inr (owner, e) ↦ rw e
      ])
      (λ _. refl)

-- The tasks after the rounds from `index` on.
abbrev pub stepped : ℕ → (ℕ → Task) → ℕ → ℕ → ℕ → Task
stepped now tasks index bound q =
    if leb index q && ltb q bound then ticked_task now (tasks q) else tasks q

same_of :
    (a b : Task) (p : ℕ) → b ≡ record a { priority = p } → b ≡ record a { priority = b.priority }
same_of a b p e = e ∙ ap (λ r. record a { priority = r }) (sym (ap (λ (t : Task). t.priority) e))

-- One round, seen from the rounds that follow.
stepped-tick_task :
    (k : Kernel) (index rounds : ℕ)
    → OnlyPriorities (stepped k.ticks k.tasks index (index + suc rounds)) (
        stepped
          (tick_task k index).ticks
          (tick_task k index).tasks
          (index + 1)
          (index + 1 + rounds))
stepped-tick_task k index rounds = record {
  same = λ q. elim (Bool-cases (q == index)) [
    | inl e ↦
        let at : q ≡ index = ==→eq q index e in
        let first : (leb index q && ltb q (index + suc rounds)) ≡ true = ground (arith, at) in
        let past : (leb (index + 1) q && ltb q (index + 1 + rounds)) ≡ false = ground (arith, at) in
        let done = (tick_task-OnlyPriorities k index).same q in rw (first, past) (done ∙ rw (e, at))
    | inr ne ↦
        let p : ℕ = ((tick_task k index).tasks q).priority in
        let kept : (tick_task k index).tasks q ≡ record (k.tasks q) { priority = p } =
          (tick_task-OnlyPriorities k index).same q ∙ rw ne in
        let same_window : (leb (index + 1) q && ltb q (index + 1 + rounds))
            ≡ (leb index q && ltb q (index + suc rounds)) =
          ground (arith, ==→ne q index ne) in
        rw (same_window, tick_task-ticks k index)
          (elim (Bool-cases (leb index q && ltb q (index + suc rounds))) [
            | inl inside ↦ rw inside (
                same_of (ticked_task k.ticks (k.tasks q))
                  (ticked_task k.ticks ((tick_task k index).tasks q)) p
                  (ap (ticked_task k.ticks) kept ∙ ticked_task-priority k.ticks p (k.tasks q)))
            | inr outside ↦ rw outside kept
          ])
  ];
}

tick_scan_lem :
    (rounds : ℕ) (k : Kernel) (index : ℕ)
    → OnlyPriorities
        (stepped k.ticks k.tasks index (index + rounds))
        (tick_scan rounds k index).tasks
unfolding tick_scan
tick_scan_lem zero k index = record {
  same = λ q. let empty : (leb index q && ltb q (index + 0)) ≡ false = ground arith in rw empty;
}
tick_scan_lem (suc rounds) k index =
    OnlyPriorities-trans (stepped-tick_task k index rounds)
      (tick_scan_lem rounds (tick_task k index) (index + 1))

-- A task after the loop is, but for its effective priority, what its own round makes of it.
pub tick_scan-ticked_task :
    (k : Kernel) (i : ℕ)
    → i < k.task_count
    → let t = (tick_scan k.task_count k 0).tasks i in
      t ≡ record (ticked_task k.ticks (k.tasks i)) { priority = t.priority }
tick_scan-ticked_task k i h =
    let inside : (leb 0 i && ltb i (0 + k.task_count)) ≡ true = ground arith in
    (tick_scan_lem k.task_count k 0).same i ∙ rw inside

-- How a tick leaves a task, but for its effective priority. A sleeping task counts down, and is
-- ready at 0. A blocked task with a deadline, from whose start as many ticks have passed as lie
-- between the start and the deadline, both modulo 2 ^ 32, is ready, with the result 0 and no wait.
-- Any other task stays as it is.
pub data TickedTask (now : ℕ) (t t' : Task) : Type 0 where
  wakes :
      t.state ≡ TaskState.sleeping
      → t.sleep_ticks ≡ 1
      → t' ≡ record t { state = TaskState.ready; sleep_ticks = 0; priority = t'.priority }
      → TickedTask now t t'
  sleeps_on :
      t.state ≡ TaskState.sleeping
      → 1 < t.sleep_ticks
      → t' ≡ record t { sleep_ticks = t.sleep_ticks - 1; priority = t'.priority }
      → TickedTask now t t'
  times_out :
      t.state ≡ TaskState.blocked
      → t.wait_forever ≡ 0
      → sub32 t.wait_deadline t.wait_start ≤ sub32 now t.wait_start
      → t' ≡ record t {
        state = TaskState.ready;
        wait_result = 0;
        wait_object = 0;
        wait_kind = WaitKind.idle;
        wait_start = 0;
        wait_deadline = 0;
        wait_forever = 0;
        priority = t'.priority;
      }
      → TickedTask now t t'
  stays :
      (t.state ≢ TaskState.sleeping) ⊎ (t.sleep_ticks ≡ 0)
      → (t.state ≢ TaskState.blocked)
        ⊎ ((t.wait_forever ≢ 0) ⊎ (sub32 now t.wait_start < sub32 t.wait_deadline t.wait_start))
      → t' ≡ record t { priority = t'.priority }
      → TickedTask now t t'

ticked_task-TickedTask :
    (now p : ℕ) (t : Task) → TickedTask now t (record (ticked_task now t) { priority = p })
unfolding ticked_task sleeps count_sleep timed_out expired end_wait
ticked_task-TickedTask now p t = elim (Bool-cases (sleeps t)) [
  | inl asleep ↦ elim (Bool-cases (t.sleep_ticks == 1)) [
    | inl last ↦
        wakes (ground (arith, asleep)) (ground (arith, last)) (rw asleep (ground (arith, last)))
    | inr more ↦
        sleeps_on (ground (arith, asleep)) (ground (arith, asleep, more))
          (rw asleep (ground (arith, asleep, more)))
  ]
  | inr awake ↦ elim (Bool-cases (timed_out now t)) [
    | inl over ↦
        times_out (ground (arith, over)) (ground (arith, over)) (ground (arith, over))
          (rw (awake, over) refl)
    | inr still ↦ stays (ground (arith, awake)) (ground (arith, still)) (rw (awake, still) refl)
  ]
]

-- The loop of `tick_tasks` leaves each configured task, but for its effective priority, as follows.
-- A sleeping task with ticks left has one less, and becomes ready when that is 0. A blocked task
-- that does not wait for ever, whose ticks since the start of its wait have reached those from the
-- start to the deadline, both modulo 2 ^ 32, becomes ready with the result 0 and cleared wait
-- metadata. Any other task keeps every field.
pub tick_scan-TickedTask :
    (k : Kernel) (i : ℕ)
    → i < k.task_count
    → TickedTask k.ticks (k.tasks i) ((tick_scan k.task_count k 0).tasks i)
tick_scan-TickedTask k i h =
    subst (TickedTask k.ticks (k.tasks i)) (sym (tick_scan-ticked_task k i h))
      (ticked_task-TickedTask k.ticks ((tick_scan k.task_count k 0).tasks i).priority (k.tasks i))
