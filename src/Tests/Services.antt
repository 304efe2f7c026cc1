-- ===== src/Tests/Services.antt =====
-- Ticks, time and the services of task.c at concrete kernels.
use just_rt.Common.{
  ◌*◌, ◌%◌, ◌≡◌, refl, false, arith, ◌!=◌, if◌then◌else◌, [], ◌∷◌, some, none, ltb, u32_max, update,
  add32, ◌⊎◌,
}
use just_rt.Kernel.{Task, Kernel}
use just_rt.Kernel.TaskState
use just_rt.Kernel.WaitKind
use just_rt.Kernel.Status
use just_rt.Wait.{end_wait}
use just_rt.Wait.Metadata.{TasksOk}
use just_rt.Tick.{tick_task, continued, tick_tasks, ticked_task, tick_scan}
use just_rt.Tick.Step.{TickedTask, tick_scan-TickedTask}
use just_rt.Tick.Check.{KernelOk, tick_tasks-KernelOk}
use just_rt.Ticks.{milliseconds_to_ticks, delay_until}
use just_rt.Ticks.Convert.{exact_ticks, milliseconds_to_ticks_lem}
use just_rt.Ticks.Reached.{delay_until_lem}
use just_rt.Service.Lifecycle.{sleep_current, suspend, resume, set_state, resume-suspend}
use just_rt.Service.Notification.{notify_all, take_resume, take_resume-notify_all, total}
use just_rt.Service.EventGroup
use just_rt.Timer.{periodic_fault}
use just_rt.Service.Svc.{svc_dispatch}
use just_rt.System.Sleep.{advance_all, advance_all-sleep_current}
use just_rt.Tests.Fixture.{demo, blank_task, mutex_waiter}

demo-TasksOk : TasksOk demo.tasks
demo-TasksOk i = ground arith

demo-KernelOk : KernelOk demo
unfolding periodic_fault
demo-KernelOk = record {
  tasks = demo-TasksOk;
  mutexes = (100 ∷ [], omega arith, (omega arith, tt));
  timers = (([], record { chain = refl; counted = refl }), λ p. refl);
}

tick_tasks-KernelOk_example :
    (k' : Kernel) × (tick_tasks (λ i. 128 * i) demo ≡ continued k') × KernelOk k'
tick_tasks-KernelOk_example = tick_tasks-KernelOk (λ i. 128 * i) demo demo-KernelOk

-- At tick 15 the wait of task 1 for the mutex is over.
abbrev later_demo : Kernel
later_demo = record demo { ticks = 15 }

tick_scan-times_out : ((tick_scan 4 later_demo 0).tasks 1).state ≡ TaskState.ready
unfolding tick_scan tick_task ticked_task just_rt.Tick.timed_out just_rt.Wait.expired
    just_rt.Tick.timeout_owner just_rt.Priority.restore_chain_loop
    just_rt.Priority.effective_priority just_rt.Priority.effective_scan just_rt.Priority.waits_for
    just_rt.Tick.sleeps end_wait just_rt.Priority.chain_next
tick_scan-times_out = refl

tick_scan-TickedTask_example : TickedTask 15 mutex_waiter ((tick_scan 4 later_demo 0).tasks 1)
tick_scan-TickedTask_example = tick_scan-TickedTask later_demo 1 (omega arith)

milliseconds_to_ticks_lem_example :
    milliseconds_to_ticks 7500 1
    ≡ (if ltb u32_max (exact_ticks 7500 1) then u32_max else exact_ticks 7500 1)
milliseconds_to_ticks_lem_example =
    milliseconds_to_ticks_lem 7500 1 (omega arith) (omega arith) (omega arith)

delay_until_lem_example :
    delay_until (add32 4294967290 3) 4294967290 10
    ≡ (add32 4294967290 10, if ltb 3 10 then some 7 else none)
delay_until_lem_example = delay_until_lem 4294967290 10 3 (omega arith) (omega arith) (omega arith)

-- Task 1 is ready.
abbrev ready_demo : Kernel
ready_demo = record demo { tasks = update demo.tasks 1 blank_task }

resume-suspend_example :
    (suspend ready_demo 1 ≡ (set_state ready_demo 1 TaskState.suspended, Status.ok))
    × (resume (set_state ready_demo 1 TaskState.suspended) 1 ≡ (ready_demo, Status.ok))
resume-suspend_example =
    resume-suspend ready_demo 1 (omega arith) (omega arith) (omega arith) (omega arith) refl

take_resume-notify_all_example :
    let taken = take_resume (record (notify_all demo 2 (3 ∷ 4 ∷ [])) { current = 2 }) in
    (taken.1 ≡ (if total (3 ∷ 4 ∷ []) % 4294967296 != 0 then 1 else 0))
    × (taken.2 ≡ total (3 ∷ 4 ∷ []) % 4294967296)
    × ((taken.0.tasks 2).notification_value ≡ 0)
take_resume-notify_all_example = take_resume-notify_all demo 2 (3 ∷ 4 ∷ []) refl (omega arith) refl

-- Task 2 waits for the bits 1 and 4 of the event group at 500, task 3 for the bit 2.
abbrev event_waiter : Task
event_waiter = record blank_task {
  state = TaskState.blocked;
  priority = 5;
  base_priority = 5;
  wait_object = 500;
  wait_kind = WaitKind.event_group;
  wait_start = 5;
  wait_forever = 1;
  event_wait_bits = 5;
  event_wait_all = 1;
}

abbrev event_demo : Kernel
event_demo = record demo {
  tasks = update (update demo.tasks 2 event_waiter) 3 (record event_waiter { event_wait_bits = 2 });
}

set_bits-wakes : ((EventGroup.set_bits false event_demo 500 5).0.tasks 2).state ≡ TaskState.ready
unfolding EventGroup.set_bits EventGroup.wake_scan EventGroup.satisfied EventGroup.event_condition
    end_wait
set_bits-wakes = refl

set_bits-Awaits_example :
    let k' = (EventGroup.set_bits false event_demo 500 5).0 in
    ((EventGroup.set_bits false event_demo 500 5).1 ≡ 5)
    × (k'.event_groups 500 ≡ 5)
    × ((EventGroup.Awaits 500 5 event_waiter × (k'.tasks 2 ≡ EventGroup.woken event_waiter))
        ⊎ ((¬ EventGroup.Awaits 500 5 event_waiter) × (k'.tasks 2 ≡ event_waiter)))
    × (¬ EventGroup.Awaits 500 (k'.event_groups 500) (k'.tasks 2))
set_bits-Awaits_example =
    EventGroup.set_bits-Awaits false event_demo 500 5 2 (omega arith) refl (omega arith)

-- Task 0 sleeps for three ticks: after two it sleeps still.
advance_all-sleep_current_example :
    ((advance_all 2 (sleep_current demo 3)).tasks 0).state ≡ TaskState.sleeping
advance_all-sleep_current_example = advance_all-sleep_current demo 3 2 (omega arith) (omega arith)

-- The service number 0 belongs to the start of the first task, which `svc_dispatch` does not serve.
svc_number_0 :
    (svc_dispatch
      (record { invalid_context = 0; invalid_service = 0; led_toggles = 0 })
      demo
      12
      0
      7).0.invalid_service
    ≡ 1
unfolding svc_dispatch
svc_number_0 = refl
