-- ===== src/Service/EventGroup.antt =====
-- Event groups of task.c: an event group is its `bits`.
use Prim.Native.Nat.{bit_and, bit_or}
use just_rt.Common.{
  ℕ, zero, suc, ◌+◌, ◌-◌, ◌<◌, ◌≡◌, ◌≢◌, inl, inr, refl, sym, ◌∙◌, Bool, not, ◌&&◌, ◌||◌, true,
  false, arith, ltb, leb, ◌==◌, ◌!=◌, if◌then◌else◌, if_intro, update, Bool-cases, ==_refl, ==→eq,
  ==→ne, ==_of_ne, ◌⊎◌,
}
use mathlib.Core.Bool.{true≢false}
use just_rt.Kernel.{Task, Kernel, current_task, request_switch}
use just_rt.Kernel.TaskState
use just_rt.Kernel.WaitKind
use just_rt.Wait.{Outcome, returned, blocked, begin_wait, end_wait, wait_deadline}

-- `event_condition`
unfoldable pub event_condition : ℕ → ℕ → ℕ → Bool
event_condition current requested wait_all =
    if wait_all != 0 then bit_and current requested == requested else bit_and current requested != 0

-- `JRT_EventGroupCreateStatic` on a group that is not null.
unfoldable pub create : Kernel → ℕ → Kernel
create k group = record k { event_groups = update k.event_groups group 0 }

-- The waiter test of `event_group_set_bits_common`
unfoldable pub satisfied : ℕ → ℕ → Task → Bool
satisfied group bits t =
    (t.state == TaskState.blocked)
    && (t.wait_kind == WaitKind.event_group)
    && (t.wait_object == group)
    && event_condition bits t.event_wait_bits t.event_wait_all

-- The loop of `event_group_set_bits_common`, with the rounds left.
unfoldable pub wake_scan : ℕ → ℕ → ℕ → (ℕ → Task) → ℕ → ℕ → Task
wake_scan group bits zero tasks index = tasks
wake_scan group bits (suc rounds) tasks index =
    let t = tasks index in
    wake_scan group bits rounds
      (if satisfied group bits t then update tasks index (end_wait t 1) else tasks) (index + 1)

-- `event_group_set_bits_common`; `from_isr` tells the two callers apart.
unfoldable pub set_bits : Bool → Kernel → ℕ → ℕ → Kernel × ℕ
set_bits from_isr k group bits =
    let result = bit_or (k.event_groups group) bits in
    if (group == 0) || (if from_isr then not k.in_isr else k.in_isr) then (k, 0) else (
      request_switch (record k {
        event_groups = update k.event_groups group result;
        tasks = wake_scan group result k.task_count k.tasks 0;
      }),
      result,
    )

-- `JRT_EventGroupGetBits`
unfoldable pub get_bits : Kernel → ℕ → ℕ
get_bits k group = if group == 0 then 0 else k.event_groups group

-- `group->bits &= ~bits`: what is left of the bits once those of `bits` are taken away.
unfoldable pub clear_bits : ℕ → ℕ → ℕ
clear_bits current bits = current - bit_and current bits

-- What `JRT_EventGroupWaitBits` stores in the task that blocks.
unfoldable pub event_wait : Task → ℕ → ℕ → ℕ → Task
event_wait t bits wait_all clear_on_exit = record t {
  event_wait_bits = bits;
  event_wait_all = if wait_all != 0 then 1 else 0;
  event_clear_on_exit = if clear_on_exit != 0 then 1 else 0;
}

-- `JRT_EventGroupWaitBits`, up to `arch_yield()`
unfoldable pub wait_bits : Kernel → ℕ → ℕ → ℕ → ℕ → ℕ → Outcome
wait_bits k group bits wait_all clear_on_exit timeout =
    let current = k.event_groups group in
    let waiting =
      begin_wait (event_wait (current_task k) bits wait_all clear_on_exit) group
        WaitKind.event_group (wait_deadline k timeout) in
    if (group == 0) || (bits == 0) || k.in_isr
    then returned k 0
    else (if event_condition current bits (if wait_all != 0 then 1 else 0)
        then returned
            (if clear_on_exit != 0
              then record k { event_groups = update k.event_groups group (clear_bits current bits) }
              else k)
            (bit_and current bits)
        else (if timeout == 0
            then returned k 0
            else blocked (request_switch (record k { tasks = update k.tasks k.current waiting }))))

-- `JRT_EventGroupWaitBits` after `arch_yield()`
unfoldable pub wait_bits_resume : Kernel → ℕ → ℕ → Kernel × ℕ
wait_bits_resume k group bits =
    let current = k.event_groups group in
    let t = current_task k in
    (
      if event_condition current bits t.event_wait_all && (t.event_clear_on_exit != 0)
          then record k { event_groups = update k.event_groups group (clear_bits current bits) }
          else k,
      bit_and current bits,
    )

wake_scan_lem :
    (group bits rounds : ℕ) (tasks : ℕ → Task) (index q : ℕ)
    → wake_scan group bits rounds tasks index q ≡ (
        if (leb index q && ltb q (index + rounds)) && satisfied group bits (tasks q)
        then end_wait (tasks q) 1
        else tasks q)
unfolding wake_scan
wake_scan_lem group bits zero tasks index q =
    let empty : (leb index q && ltb q (index + 0)) ≡ false = ground arith in rw empty
wake_scan_lem group bits (suc rounds) tasks index q =
    wake_scan_lem group bits rounds _ (index + 1) q ∙ elim (Bool-cases (q == index)) [
      | inl e ↦
          let first : (leb index q && ltb q (index + suc rounds)) ≡ true = ground arith in
          let past : (leb (index + 1) q && ltb q (index + 1 + rounds)) ≡ false = ground arith in
          rw (first, past, ==→eq q index e)
            (elim (Bool-cases (satisfied group bits (tasks index))) [
              | inl s ↦ rw (s, ==_refl index)
              | inr s ↦ rw s
            ])
      | inr ne ↦
          let window : (leb (index + 1) q && ltb q (index + 1 + rounds))
              ≡ (leb index q && ltb q (index + suc rounds)) =
            ground (arith, ==→ne q index ne) in
          let same : (if satisfied group bits (tasks index)
                  then update tasks index (end_wait (tasks index) 1)
                  else tasks)
                q
              ≡ tasks q =
            if_intro (λ (f : ℕ → Task). f q ≡ tasks q) (satisfied group bits (tasks index))
              (λ _. rw ne) (λ _. refl) in
          rw (same, window)
    ]

right_context :
    (from_isr in_isr : Bool) (group : ℕ)
    → group ≢ 0
    → from_isr ≡ in_isr
    → ((group == 0) || (if from_isr then not in_isr else in_isr)) ≡ false
right_context true in_isr group h e = rw (==_of_ne group 0 h, sym e)
right_context false in_isr group h e = rw (==_of_ne group 0 h, sym e)

-- All of the bits that a task waits for are set, or, where it does not wait for all, some are.
abbrev Met : ℕ → Task → Type 0
Met bits t =
    ((t.event_wait_all ≢ 0) × (bit_and bits t.event_wait_bits ≡ t.event_wait_bits))
    ⊎ ((t.event_wait_all ≡ 0) × (bit_and bits t.event_wait_bits ≢ 0))

-- A task that waits for `group` and whose condition `bits` meet.
abbrev pub Awaits : ℕ → ℕ → Task → Type 0
Awaits group bits t =
    (t.state ≡ TaskState.blocked)
    × (t.wait_kind ≡ WaitKind.event_group)
    × (t.wait_object ≡ group)
    × Met bits t

satisfied-Awaits : (group bits : ℕ) (t : Task) → satisfied group bits t ≡ true → Awaits group bits t
unfolding satisfied event_condition
satisfied-Awaits group bits t h = (
  ground (arith, h),
  ground (arith, h),
  ground (arith, h),
  elim (Bool-cases (t.event_wait_all != 0)) [
    | inl whole ↦ inl (ground (arith, whole), ground (arith, h, whole))
    | inr some_bit ↦ inr (ground (arith, some_bit), ground (arith, h, some_bit))
  ],
)

Met-event_condition :
    (bits : ℕ) (t : Task)
    → Met bits t
    → event_condition bits t.event_wait_bits t.event_wait_all ≡ true
unfolding event_condition
Met-event_condition bits t (inl (whole, met)) = ground (arith, whole, met)
Met-event_condition bits t (inr (some_bit, met)) = ground (arith, some_bit, met)

Awaits-satisfied : (group bits : ℕ) (t : Task) → Awaits group bits t → satisfied group bits t ≡ true
unfolding satisfied
Awaits-satisfied group bits t (blocks, event, object, met) =
    rw (blocks, event, object, Met-event_condition bits t met, ==_refl group) refl

-- The task that is woken: ready, with the result 1 and no wait.
abbrev pub woken : Task → Task
woken t = record t {
  state = TaskState.ready;
  wait_result = 1;
  wait_object = 0;
  wait_kind = WaitKind.idle;
  wait_start = 0;
  wait_deadline = 0;
  wait_forever = 0;
}

module _ (group bits : ℕ) (t : Task) where
  not_satisfied : satisfied group bits t ≡ false → ¬ Awaits group bits t
  not_satisfied s a = true≢false (sym (Awaits-satisfied group bits t a) ∙ s)

  -- A round wakes the task, or leaves it.
  woken_or_kept :
      let t' = if satisfied group bits t then end_wait t 1 else t in
      ((Awaits group bits t × (t' ≡ woken t)) ⊎ ((¬ Awaits group bits t) × (t' ≡ t)))
      × (¬ Awaits group bits t')
  unfolding end_wait
  woken_or_kept = elim (Bool-cases (satisfied group bits t)) [
    | inl s ↦ rw s (inl (satisfied-Awaits group bits t s, refl), λ a. omega (arith, a.0))
    | inr s ↦ rw s (inr (not_satisfied s, refl), not_satisfied s)
  ]

-- `event_group_set_bits_common`, in the context that its caller is for and on a group that is not
-- null, returns the old bits together with those given and stores them in the group. Every
-- configured task that is blocked on this group, and for which all the bits it waits for are now
-- set, or one of them if it does not wait for all, becomes ready with the result 1 and cleared wait
-- metadata; every other configured task keeps every field. Afterwards no configured task is blocked
-- on the group with a condition that its bits meet.
pub set_bits-Awaits :
    (from_isr : Bool) (k : Kernel) (group bits q : ℕ)
    → group ≢ 0
    → from_isr ≡ k.in_isr
    → q < k.task_count
    → let k' = (set_bits from_isr k group bits).0 in
      let bits' = bit_or (k.event_groups group) bits in
      ((set_bits from_isr k group bits).1 ≡ bits')
      × (k'.event_groups group ≡ bits')
      × ((Awaits group bits' (k.tasks q) × (k'.tasks q ≡ woken (k.tasks q)))
          ⊎ ((¬ Awaits group bits' (k.tasks q)) × (k'.tasks q ≡ k.tasks q)))
      × (¬ Awaits group (k'.event_groups group) (k'.tasks q))
unfolding set_bits
set_bits-Awaits from_isr k group bits q hg hc hq =
    let bits' : ℕ = bit_or (k.event_groups group) bits in
    let accepted : ((group == 0) || (if from_isr then not k.in_isr else k.in_isr)) ≡ false =
      right_context from_isr k.in_isr group hg hc in
    let window : (leb 0 q && ltb q (0 + k.task_count)) ≡ true = ground arith in
    let after : wake_scan group bits' k.task_count k.tasks 0 q
        ≡ (if satisfied group bits' (k.tasks q) then end_wait (k.tasks q) 1 else k.tasks q) =
      wake_scan_lem group bits' k.task_count k.tasks 0 q ∙ rw window in
    let (outcome, settled) = woken_or_kept group bits' (k.tasks q) in
    rw (accepted, ==_refl group, after) (refl, refl, outcome, settled)
