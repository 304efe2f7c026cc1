-- ===== src/Timer.antt =====
-- Software timers of kernel/timer.c, with the timer service's wake-up and wait of kernel/task.c.
-- A callback is application code: a number names it, and `JRT_TimerDispatch` takes what running it
-- does as a parameter.
pub mod Expire
pub mod Registry
pub mod Calls
use just_rt.Common.{
  ℕ, zero, suc, ◌+◌, Bool, true, false, ◌&&◌, ◌||◌, Option, none, some, ◌==◌, ◌!=◌, if◌then◌else◌,
  add32, sub32, nonneg32, update,
}
use just_rt.Kernel.{Task, Kernel, request_switch}
use just_rt.Kernel.Objects
use just_rt.Kernel.TaskState
use just_rt.Kernel.WaitKind
use just_rt.Kernel.InvariantCode
use just_rt.Wait.{wait_begin, end_wait, wait_forever}
use just_rt.Intrusive.{linked_from, cycle_from}

-- `&timer_service_wait_object`, some address that is not null.
abbrev pub timer_service_wait_object : ℕ
timer_service_wait_object = 1

-- The test of `task_timer_service_wake_locked`
unfoldable pub service_waits : Task → Bool
service_waits t =
    (t.state == TaskState.blocked)
    && (t.wait_object == timer_service_wait_object)
    && (t.wait_kind == WaitKind.timer_service)

-- What `task_timer_service_wake_locked` does to the tasks.
unfoldable pub served : (ℕ → Task) → ℕ → ℕ → Task
served tasks i = if service_waits (tasks i) then update tasks i (end_wait (tasks i) 1) else tasks

-- `task_timer_service_wake_locked`
abbrev pub service_wake : Kernel → Kernel
service_wake k = record k { tasks = served k.tasks k.timer_service_task_index }

-- `task_timer_service_block_locked`, up to `arch_yield()`
abbrev pub service_block : Kernel → Kernel
service_block k =
    request_switch
      (wait_begin k k.current timer_service_wait_object WaitKind.timer_service wait_forever)

abbrev pub set_timer : Kernel → ℕ → Objects.Timer → Kernel
set_timer k p v = record k { timers = update k.timers p v }

-- `timer_is_linked_locked`; `timer_nodes`, the number of timers linked, bounds the walk.
unfoldable pub is_linked : Kernel → ℕ → Bool
is_linked k p = linked_from (λ q. (k.timers q).next) p k.timer_nodes k.timer_list

-- `timer_link_locked`; `timer_nodes` counts what it links.
unfoldable pub link : Kernel → ℕ → Kernel
link k p = if is_linked k p then k else record k {
  timers = update k.timers p (record (k.timers p) { next = k.timer_list });
  timer_list = p;
  timer_nodes = k.timer_nodes + 1;
}

-- `JRT_TimerCreateStatic`
unfoldable pub create : Kernel → ℕ → Kernel
create k p =
    let next = if is_linked k p then (k.timers p).next else 0 in
    if p == 0
    then k
    else link
        (set_timer k p (record {
          deadline = 0;
          period = 0;
          reload_ticks = 0;
          expirations = 0;
          active = 0;
          periodic = 0;
          callback = 0;
          argument = 0;
          next = next;
        }))
        p

-- `JRT_TimerSetCallback`
unfoldable pub set_callback : Kernel → ℕ → ℕ → ℕ → Kernel
set_callback k p callback argument =
    let set = set_timer k p (record (k.timers p) { callback = callback; argument = argument }) in
    if p == 0
    then k
    else (if (callback != 0) && ((k.timers p).expirations != 0)
        then request_switch (service_wake set)
        else set)

-- What `JRT_TimerStart` stores in the timer.
unfoldable pub armed : Objects.Timer → ℕ → ℕ → Objects.Timer
armed t now delay = record t {
  deadline = add32 now delay;
  period = 0;
  reload_ticks = delay;
  periodic = 0;
  active = 1;
}

-- What `JRT_TimerStartPeriodic` stores in the timer.
unfoldable pub armed_periodic : Objects.Timer → ℕ → ℕ → Objects.Timer
armed_periodic t now period = record t {
  deadline = add32 now period;
  period = period;
  reload_ticks = period;
  periodic = 1;
  active = 1;
}

-- `JRT_TimerStart`
unfoldable pub start : Kernel → ℕ → ℕ → Kernel
start k p delay =
    let linked = link k p in
    if p == 0 then k else set_timer linked p (armed (linked.timers p) k.ticks delay)

-- `JRT_TimerStartPeriodic`
unfoldable pub start_periodic : Kernel → ℕ → ℕ → Kernel
start_periodic k p period =
    let linked = link k p in
    if (p == 0) || (period == 0)
    then k
    else set_timer linked p (armed_periodic (linked.timers p) k.ticks period)

-- `JRT_TimerRestart`
unfoldable pub restart : Kernel → ℕ → Kernel
restart k p =
    let linked = link k p in
    let t = linked.timers p in
    if (p == 0) || ((k.timers p).reload_ticks == 0)
    then k
    else set_timer linked p (record t { deadline = add32 k.ticks t.reload_ticks; active = 1 })

-- `JRT_TimerStop`
unfoldable pub stop : Kernel → ℕ → Kernel
stop k p = if p == 0 then k else set_timer k p (record (k.timers p) { active = 0 })

-- `JRT_TimerTakeExpirations`
unfoldable pub take_expirations : Kernel → ℕ → Kernel × ℕ
take_expirations k p =
    if p == 0
    then (k, 0)
    else (set_timer k p (record (k.timers p) { expirations = 0 }), (k.timers p).expirations)

-- `while (expirations > 0U) { callback(argument); expirations--; }`
unfoldable pub call_back : (ℕ → ℕ → Kernel → Kernel) → ℕ → ℕ → ℕ → Kernel → Kernel
call_back run callback argument zero k = k
call_back run callback argument (suc expirations) k =
    call_back run callback argument expirations (run callback argument k)

-- `JRT_TimerDispatch`
unfoldable pub dispatch : (ℕ → ℕ → Kernel → Kernel) → Kernel → ℕ → Kernel
dispatch run k p =
    let t = k.timers p in
    if (p == 0) || (t.callback == 0)
    then k
    else call_back run t.callback t.argument t.expirations
        (set_timer k p (record t { expirations = 0 }))

-- The expiry test of `kernel_timer_tick`
unfoldable pub due : ℕ → Objects.Timer → Bool
due now t = (t.active != 0) && nonneg32 (sub32 now t.deadline)

-- What `kernel_timer_tick` stores in a timer.
unfoldable pub fire : ℕ → Objects.Timer → Objects.Timer
fire now t =
    let counted = record t { expirations = add32 t.expirations 1 } in
    if due now t
    then (if t.periodic != 0
        then record counted { deadline = add32 t.deadline t.period }
        else record counted { active = 0 })
    else t

-- One round of the loop of `kernel_timer_tick`
unfoldable pub tick_timer : Kernel → ℕ → Kernel
tick_timer k p =
    let t = k.timers p in
    record k {
      tasks =
          if due k.ticks t && (t.callback != 0)
          then served k.tasks k.timer_service_task_index
          else k.tasks;
      timers = update k.timers p (fire k.ticks t);
    }

-- The loop of `kernel_timer_tick`, with the rounds allowed.
unfoldable pub tick_from : ℕ → Kernel → ℕ → Kernel
tick_from zero k p = k
tick_from (suc fuel) k p =
    let ticked = tick_timer k p in
    let rest = tick_from fuel ticked (ticked.timers p).next in if p == 0 then k else rest

-- `kernel_timer_tick`
unfoldable pub timer_tick : Kernel → Kernel
timer_tick k = tick_from k.timer_nodes k k.timer_list

-- The timer that `kernel_timer_service_claim` finds, with the rounds allowed.
unfoldable pub claim_from : (ℕ → Objects.Timer) → ℕ → ℕ → Option ℕ
claim_from timers zero p = none
claim_from timers (suc fuel) p =
    let t = timers p in
    let rest = claim_from timers fuel t.next in
    if p == 0 then none else (if (t.callback != 0) && (t.expirations != 0) then some p else rest)

-- `kernel_timer_service_claim`: the callback and its argument, or none, and the task blocks.
unfoldable pub service_claim : Kernel → Kernel × Option (ℕ × ℕ)
service_claim k = elim (claim_from k.timers k.timer_nodes k.timer_list) [
  | none ↦ (service_block k, none)
  | some p ↦
      let t = k.timers p in
      (
        set_timer k p (record t { expirations = sub32 t.expirations 1 }),
        some (t.callback, t.argument),
      )
]

-- The test that the second loop of `timer_invariant_check` makes of one timer.
unfoldable pub periodic_fault : Objects.Timer → Bool
periodic_fault t = ((t.periodic != 0) && (t.period == 0)) || ((t.periodic == 0) && (t.period != 0))

-- The second loop, with the rounds allowed (`none` if they do not suffice).
unfoldable pub scan_timers : (ℕ → Objects.Timer) → ℕ → ℕ → Option (ℕ × ℕ)
scan_timers timers zero p = none
scan_timers timers (suc fuel) p =
    let rest = scan_timers timers fuel (timers p).next in
    if p == 0
    then some (InvariantCode.ok, 0)
    else (if periodic_fault (timers p) then some (InvariantCode.timer_periodic_state, p) else rest)

-- `timer_invariant_check`: the code, and the object stored through `object`.
unfoldable pub timer_invariant_check : Kernel → Option (ℕ × ℕ)
timer_invariant_check k =
    elim (cycle_from (λ p. (k.timers p).next) (k.timer_nodes + 1) k.timer_list k.timer_list) [
      | none ↦ none
      | some (some p) ↦ some (InvariantCode.timer_list_cycle, p)
      | some none ↦ scan_timers k.timers (k.timer_nodes + 1) k.timer_list
    ]
