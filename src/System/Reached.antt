-- ===== src/System/Reached.antt =====
-- What every step of the kernel of task.c, sync.c and timer.c keeps, and what holds from its
-- initialisation on.
use just_rt.Common.{
  ◌==◌, inl, inr, Bool-cases, ℕ, ◌≡◌, ◌≢◌, Bool, false, some, refl, subst, ap, ◌∙◌, sym,
}
use mathlib.Core.Option.{some-injective, none-ne-some}
use just_rt.Kernel.{Kernel, current_task}
use just_rt.Kernel.TaskState
use just_rt.Sched.{stack_fault, pendsv_switch, restored, Switched}
use just_rt.Tick.{Ticked, advance, continued, tick_tasks, halted, hung, Ticked}
use just_rt.Tick.Check.{check_invariants-KernelOk}
use just_rt.Init.Boot.{kernel_start}
use just_rt.System.Moves.{Moves-refl}
use just_rt.System.State.{idle_index, SystemOk, SystemOk-Plain}
use just_rt.System.Semaphores.{take-Plain, give-Plain, give_from_isr-Plain}
use just_rt.System.Queues.{
  send-Plain, receive-Plain, send_resume-Plain, receive_resume-Plain, send_from_isr-Plain,
}
use just_rt.System.Mutexes.{create-SystemOk, lock-SystemOk, unlock-SystemOk}
use just_rt.System.Waits.{request_switch-Plain}
use just_rt.System.Svc.{svc_dispatch-Plain}
use just_rt.System.Services as Services
use just_rt.System.Events as Events
use just_rt.System.Timers.{perform-SystemOk, service_claim-SystemOk}
use just_rt.System.Ticks.{advance-SystemOk}
use just_rt.System.Switches.{kernel_of, pendsv_switch-SystemOk}
use just_rt.System.Steps.{
  Blocking, yield, supervisor_call, semaphore_take, mutex_lock, queue_send, queue_send_again,
  queue_receive, queue_receive_again, notify_take, event_wait, sleep, timer_claim, Immediate,
  semaphore_give, semaphore_give_from_isr, mutex_create, mutex_unlock, queue_send_from_isr,
  task_suspend, task_resume, task_notify, notification_taken, event_create, event_set, event_taken,
  timer_call, Step, blocking_call, immediate_call, context, start, tick, switch, Reachable, here,
  later,
}

Blocking-SystemOk :
    {address : ℕ → ℕ} {k k' : Kernel}
    → SystemOk k
    → k.current ≢ idle_index k
    → (current_task k).state ≡ TaskState.running
    → Blocking address k k'
    → SystemOk k'
Blocking-SystemOk {address} {k} {k'} ok hi hr (semaphore_take s timeout d hs) =
    SystemOk-Plain k k' ok (take-Plain k s timeout d hi hs)
Blocking-SystemOk {address} {k} {k'} ok hi hr (mutex_lock m timeout d hm linked deep) =
    lock-SystemOk k m timeout d ok hi hm linked deep
Blocking-SystemOk {address} {k} {k'} ok hi hr (queue_send q item timeout d hq) =
    SystemOk-Plain k k' ok (send-Plain k q item timeout d hi hq)
Blocking-SystemOk {address} {k} {k'} ok hi hr (queue_send_again q item timeout d hq) =
    SystemOk-Plain k k' ok (send_resume-Plain k q item timeout d hi hq)
Blocking-SystemOk {address} {k} {k'} ok hi hr (queue_receive q item timeout d hq) =
    SystemOk-Plain k k' ok (receive-Plain k q item timeout d hi hq)
Blocking-SystemOk {address} {k} {k'} ok hi hr (queue_receive_again q item timeout d hq) =
    SystemOk-Plain k k' ok (receive_resume-Plain k q item timeout d hi hq)
Blocking-SystemOk {address} {k} {k'} ok hi hr (notify_take timeout ha) =
    SystemOk-Plain k k' ok (Services.take-Plain address k timeout hi ha)
Blocking-SystemOk {address} {k} {k'} ok hi hr
      (event_wait group bits wait_all clear_on_exit timeout) =
    SystemOk-Plain k k' ok (Events.wait_bits-Plain k group bits wait_all clear_on_exit timeout hi)
Blocking-SystemOk {address} {k} {k'} ok hi hr (sleep ticks) =
    SystemOk-Plain k k' ok (Services.sleep_current-Plain k ticks hi hr)
Blocking-SystemOk {address} {k} {k'} ok hi hr timer_claim = service_claim-SystemOk k ok hi
Blocking-SystemOk {address} {k} {k'} ok hi hr (supervisor_call c exc_return number r0) =
    SystemOk-Plain k k' ok (svc_dispatch-Plain c k exc_return number r0 hi hr)

Immediate-SystemOk : {k k' : Kernel} → SystemOk k → Immediate k k' → SystemOk k'
Immediate-SystemOk {k} {k'} ok (semaphore_give s) = SystemOk-Plain k k' ok (give-Plain k s)
Immediate-SystemOk {k} {k'} ok (semaphore_give_from_isr s) =
    SystemOk-Plain k k' ok (give_from_isr-Plain k s)
Immediate-SystemOk {k} {k'} ok (mutex_create m hm) = create-SystemOk k m ok hm
Immediate-SystemOk {k} {k'} ok (mutex_unlock m linked) = unlock-SystemOk k m ok linked
Immediate-SystemOk {k} {k'} ok (queue_send_from_isr q item) =
    SystemOk-Plain k k' ok (send_from_isr-Plain k q item)
Immediate-SystemOk {k} {k'} ok (task_suspend requested) =
    SystemOk-Plain k k' ok (Services.suspend-Plain k requested)
Immediate-SystemOk {k} {k'} ok (task_resume requested) =
    SystemOk-Plain k k' ok (Services.resume-Plain k requested)
Immediate-SystemOk {k} {k'} ok (task_notify from_isr task_id value) =
    SystemOk-Plain k k' ok (Services.notify-Plain from_isr k task_id value)
Immediate-SystemOk {k} {k'} ok notification_taken =
    SystemOk-Plain k k' ok (Services.take_resume-Plain k)
Immediate-SystemOk {k} {k'} ok (event_create group) =
    SystemOk-Plain k k' ok (Events.create-Plain k group)
Immediate-SystemOk {k} {k'} ok (event_set from_isr group bits) =
    SystemOk-Plain k k' ok (Events.set_bits-Plain from_isr k group bits)
Immediate-SystemOk {k} {k'} ok (event_taken group bits) =
    SystemOk-Plain k k' ok (Events.wait_bits_resume-Plain k group bits)
Immediate-SystemOk {k} {k'} ok yield = SystemOk-Plain k k' ok (request_switch-Plain k)
Immediate-SystemOk {k} {k'} ok (timer_call c) = perform-SystemOk k c ok

-- A tick of such a kernel continues with `advance`.
pub tick_tasks-continued :
    (address : ℕ → ℕ) (k : Kernel) → SystemOk k → tick_tasks address k ≡ continued (advance k)
unfolding tick_tasks
tick_tasks-continued address k ok =
    check_invariants-KernelOk address (advance k) (advance-SystemOk k ok).checked

abbrev ticked_kernel : Ticked → Kernel → Kernel
ticked_kernel (continued k) other = k
ticked_kernel (halted k) other = k
ticked_kernel hung other = other

flags-SystemOk :
    (k : Kernel) (in_isr : Bool) (started : ℕ)
    → SystemOk k
    → SystemOk (record k { in_isr = in_isr; started = started })
flags-SystemOk k in_isr started ok = SystemOk-Plain k _ ok (record {
  moved = record {
    tasks = Moves-refl (idle_index k) k.tasks;
    task_count = refl;
    application = refl;
    current = refl;
  };
  mutexes = record { mutexes = refl; list = refl; nodes = refl };
  timers = record { timers = refl; list = refl; nodes = refl };
})

kernel_start-SystemOk : (k k' : Kernel) → SystemOk k → kernel_start k ≡ some k' → SystemOk k'
unfolding kernel_start
kernel_start-SystemOk k k' ok e = elim (Bool-cases (k.initialized == 0)) [
  | inl missing ↦ absurd (none-ne-some k' (rw missing at e))
  | inr ready ↦
      subst SystemOk (some-injective _ k' (rw ready at e)) (flags-SystemOk k k.in_isr 1 ok)
]

fault_stops : {a b : Kernel} {sp : ℕ} → Switched.halted a ≢ restored b sp
fault_stops e = cc

switch-SystemOk :
    (k k' : Kernel) (sp restored_sp : ℕ)
    → SystemOk k
    → pendsv_switch k sp ≡ restored k' restored_sp
    → SystemOk k'
unfolding pendsv_switch
switch-SystemOk k k' sp restored_sp ok e = elim (Bool-cases (stack_fault (current_task k) sp)) [
  | inl fault ↦ absurd (fault_stops (rw fault at e))
  | inr fine ↦
      let (next, e', after, runs) = pendsv_switch-SystemOk k sp ok fine in
      subst SystemOk (ap (λ o. kernel_of o k) (sym e' ∙ e)) after
]

Step-SystemOk : {address : ℕ → ℕ} {k k' : Kernel} → SystemOk k → Step address k k' → SystemOk k'
Step-SystemOk {address} {k} {k'} ok (blocking_call hi hr c) = Blocking-SystemOk ok hi hr c
Step-SystemOk {address} {k} {k'} ok (immediate_call c) = Immediate-SystemOk ok c
Step-SystemOk {address} {k} {k'} ok (context in_isr) = flags-SystemOk k in_isr k.started ok
Step-SystemOk {address} {k} {k'} ok (start e) = kernel_start-SystemOk k k' ok e
Step-SystemOk {address} {k} {k'} ok (tick e) =
    subst SystemOk (ap (λ o. ticked_kernel o k) (sym (tick_tasks-continued address k ok) ∙ e))
      (advance-SystemOk k ok)
Step-SystemOk {address} {k} {k'} ok (switch sp restored_sp e) =
    switch-SystemOk k k' sp restored_sp ok e

-- Every step keeps the state well formed, so every state that is reached is.
pub Reachable-SystemOk :
    {address : ℕ → ℕ} {start k : Kernel} → SystemOk start → Reachable address start k → SystemOk k
Reachable-SystemOk ok here = ok
Reachable-SystemOk ok (later r s) = Step-SystemOk (Reachable-SystemOk ok r) s

-- In every reachable state the next tick continues, and PendSV finds a task to run.
pub record Live (address : ℕ → ℕ) (k : Kernel) : Type 0 where
  pub ticks : (k' : Kernel) × (tick_tasks address k ≡ continued k')
  pub switches :
      (sp : ℕ)
      → stack_fault (current_task k) sp ≡ false
      → (k' : Kernel) × (pendsv_switch k sp ≡ restored k' (current_task k').sp)
        × ((current_task k').state ≡ TaskState.running)

pub SystemOk-Live : (address : ℕ → ℕ) (k : Kernel) → SystemOk k → Live address k
SystemOk-Live address k ok = record {
  ticks = (advance k, tick_tasks-continued address k ok);
  switches =
      λ sp fine. let (k', e, after, runs) = pendsv_switch-SystemOk k sp ok fine in (k', e, runs);
}
