-- ===== src/System/Sleep.antt =====
-- How long `sleep_current` of task.c makes a task sleep.
use just_rt.Common.{
  ==→eq, Bool-cases, ℕ, zero, suc, ◌-◌, ◌<◌, ◌≤◌, ◌≡◌, ◌≢◌, ◌&&◌, ◌==◌, ◌!=◌, if◌then◌else◌, inl,
  inr, refl, sym, ap, ◌∙◌, arith, if_intro, add32,
}
use just_rt.Kernel.{Task, Kernel}
use just_rt.Kernel.TaskState
use just_rt.Timer.{service_waits, served, due, tick_timer, tick_from, timer_tick}
use just_rt.Tick.{sleeps, count_sleep, ticked_task, advance}
use just_rt.Tick.Step.{tick_scan-ticked_task}
use just_rt.Service.Lifecycle.{sleep_current}
use just_rt.System.Ticks.{tick_from-Moved, advance-Moved}

served-sleeping :
    (tasks : ℕ → Task) (j i : ℕ) → (tasks i).state ≡ TaskState.sleeping → served tasks j i ≡ tasks i
unfolding served service_waits
served-sleeping tasks j i h =
    if_intro (λ (f : ℕ → Task). f i ≡ tasks i) (service_waits (tasks j))
      (λ waits. elim (Bool-cases (i == j)) [
        | inl e ↦
            let same : tasks j ≡ tasks i = ap tasks (sym (==→eq i j e)) in
            absurd (ground (arith, rw same at waits, h))
        | inr ne ↦ rw ne refl
      ])
      (λ _. refl)

tick_from-sleeping :
    (fuel : ℕ) (k : Kernel) (p i : ℕ)
    → (k.tasks i).state ≡ TaskState.sleeping
    → (tick_from fuel k p).tasks i ≡ k.tasks i
unfolding tick_from tick_timer
tick_from-sleeping zero k p i h = refl
tick_from-sleeping (suc fuel) k p i h =
    let once : (tick_timer k p).tasks i ≡ k.tasks i =
      if_intro (λ (f : ℕ → Task). f i ≡ k.tasks i)
        (due k.ticks (k.timers p) && ((k.timers p).callback != 0))
        (λ _. served-sleeping k.tasks k.timer_service_task_index i h) (λ _. refl) in
    if_intro (λ (after : Kernel). after.tasks i ≡ k.tasks i) (p == 0) (λ _. refl)
      (λ _.
        tick_from-sleeping fuel (tick_timer k p) _ i (ap (λ (t : Task). t.state) once ∙ h) ∙ once)

-- What `tick_tasks` changes in `rounds` ticks.
unfoldable pub advance_all : ℕ → Kernel → Kernel
advance_all zero k = k
advance_all (suc rounds) k = advance_all rounds (advance k)

ticked_task-sleeping :
    (now : ℕ) (t : Task)
    → t.state ≡ TaskState.sleeping
    → t.sleep_ticks ≢ 0
    → ((ticked_task now t).sleep_ticks ≡ t.sleep_ticks - 1)
      × ((ticked_task now t).state
          ≡ (if t.sleep_ticks == 1 then TaskState.ready else TaskState.sleeping))
unfolding ticked_task sleeps count_sleep
ticked_task-sleeping now t h hn = ground (arith, h, hn)

advance-sleeping :
    (k : Kernel) (i : ℕ)
    → i < k.task_count
    → (k.tasks i).state ≡ TaskState.sleeping
    → (k.tasks i).sleep_ticks ≢ 0
    → (((advance k).tasks i).sleep_ticks ≡ (k.tasks i).sleep_ticks - 1)
      × (((advance k).tasks i).state
          ≡ (if (k.tasks i).sleep_ticks == 1 then TaskState.ready else TaskState.sleeping))
unfolding advance timer_tick
advance-sleeping k i inside h hn =
    let next : Kernel = record k { ticks = add32 k.ticks 1 } in
    let timed : Kernel = timer_tick next in
    let kept : timed.tasks i ≡ k.tasks i =
      tick_from-sleeping next.timer_nodes next next.timer_list i h in
    let count : timed.task_count ≡ k.task_count =
      (tick_from-Moved next.timer_nodes next next.timer_list).task_count in
    let after = tick_scan-ticked_task timed i (rw count inside) in
    let (fewer, state) = ticked_task-sleeping timed.ticks (k.tasks i) h hn in
    (
      ap (λ (t : Task). t.sleep_ticks) after
          ∙ ap (λ (t : Task). (ticked_task timed.ticks t).sleep_ticks) kept
          ∙ fewer,
      ap (λ (t : Task). t.state) after
          ∙ ap (λ (t : Task). (ticked_task timed.ticks t).state) kept
          ∙ state,
    )

advance_all-sleeping :
    (rounds : ℕ) (k : Kernel) (i : ℕ)
    → i < k.task_count
    → (k.tasks i).state ≡ TaskState.sleeping
    → (k.tasks i).sleep_ticks ≢ 0
    → rounds ≤ (k.tasks i).sleep_ticks
    → ((advance_all rounds k).tasks i).state
      ≡ (if rounds == (k.tasks i).sleep_ticks then TaskState.ready else TaskState.sleeping)
unfolding advance_all
advance_all-sleeping zero k i inside h hn l = ground (arith, h, hn)
advance_all-sleeping (suc rounds) k i inside h hn l =
    let (fewer, state) = advance-sleeping k i inside h hn in
    elim (Bool-cases ((k.tasks i).sleep_ticks == 1)) [
      | inl last ↦
          let done : rounds ≡ 0 = ground (arith, last, l) in
          let wakes : ((advance k).tasks i).state ≡ TaskState.ready = rw last at state in
          rw done (ground (arith, last, wakes))
      | inr more ↦
          let sleeps : ((advance k).tasks i).state ≡ TaskState.sleeping = rw more at state in
          let rest =
            advance_all-sleeping rounds (advance k) i (rw (advance-Moved k).task_count inside)
              sleeps (ground (arith, fewer, more, hn)) (omega (arith, fewer, l)) in
          rest ∙ ground (arith, fewer, hn)
    ]

-- After `sleep_current` with `ticks` ticks, and with nothing but ticks from then on, the calling
-- task, which is in the table, sleeps until `tick_tasks` has advanced the kernel `ticks` times, and
-- is then ready.
pub advance_all-sleep_current :
    (k : Kernel) (ticks rounds : ℕ)
    → k.current < k.task_count
    → rounds ≤ ticks
    → ((advance_all rounds (sleep_current k ticks)).tasks k.current).state
      ≡ (if rounds == ticks then TaskState.ready else TaskState.sleeping)
unfolding sleep_current advance_all
advance_all-sleep_current k ticks rounds inside h =
    let asleep : Kernel = sleep_current k ticks in
    let left : (asleep.tasks k.current).sleep_ticks ≡ ticks = ground arith in
    let state : (asleep.tasks k.current).state
        ≡ (if ticks == 0 then TaskState.ready else TaskState.sleeping) =
      ground arith in
    elim (Bool-cases (ticks == 0)) [
      | inl none ↦
          let now : rounds ≡ 0 = ground (arith, none, h) in rw now (ground (arith, state, none))
      | inr some ↦
          advance_all-sleeping rounds asleep k.current inside (state ∙ rw some refl)
            (ground (arith, left, some)) (omega (arith, left, h))
          ∙ ap (λ n. if rounds == n then TaskState.ready else TaskState.sleeping) left
    ]
