-- ===== src/System/Steps.antt =====
-- The steps of a started kernel, and the states that it reaches.
use just_rt.Common.{ℕ, ◌<◌, ◌≡◌, ◌≢◌, Bool, true, u32_max, some}
use just_rt.Kernel.{Kernel, current_task, request_switch}
use just_rt.Kernel.TaskState
use just_rt.Wait.{Deadline, outcome_kernel}
use just_rt.Sched.{pendsv_switch, restored}
use just_rt.Sync.Semaphore as Semaphore
use just_rt.Sync.Mutex as Mutex
use just_rt.Sync.Queue as Queue
use just_rt.Timer as Timer
use just_rt.Timer.Calls
use just_rt.Service.Lifecycle.{suspend, resume, sleep_current}
use just_rt.Service.Svc.{SvcCounters, svc_dispatch}
use just_rt.Service.Notification as Notification
use just_rt.Service.EventGroup as EventGroup
use just_rt.Tick.{continued, tick_tasks}
use just_rt.Init.Boot.{kernel_start}
use just_rt.System.State.{idle_index}

-- A call that can suspend the current task, which runs and is not the idle task.
pub data Blocking (address : ℕ → ℕ) (k : Kernel) : Kernel → Type 0 where
  semaphore_take :
      (s timeout : ℕ) (d : Deadline)
      → s ≢ 0
      → Blocking address k (outcome_kernel (Semaphore.take k s timeout d))
  mutex_lock :
      (m timeout : ℕ) (d : Deadline)
      → m ≢ 0
      → Mutex.is_linked k m ≡ true
      → (k.mutexes m).recursion < u32_max
      → Blocking address k (outcome_kernel (Mutex.lock k m timeout d))
  queue_send :
      (q item timeout : ℕ) (d : Deadline)
      → q ≢ 0
      → Blocking address k (outcome_kernel (Queue.send k q item timeout d))
  queue_send_again :
      (q item timeout : ℕ) (d : Deadline)
      → q ≢ 0
      → Blocking address k (outcome_kernel (Queue.send_resume k q item timeout d))
  queue_receive :
      (q item timeout : ℕ) (d : Deadline)
      → q ≢ 0
      → Blocking address k (outcome_kernel (Queue.receive k q item timeout d))
  queue_receive_again :
      (q item timeout : ℕ) (d : Deadline)
      → q ≢ 0
      → Blocking address k (outcome_kernel (Queue.receive_resume k q item timeout d))
  notify_take :
      (timeout : ℕ)
      → address k.current ≢ 0
      → Blocking address k (outcome_kernel (Notification.take address k timeout).0)
  event_wait :
      (group bits wait_all clear_on_exit timeout : ℕ)
      → Blocking address k
          (outcome_kernel (EventGroup.wait_bits k group bits wait_all clear_on_exit timeout))
  sleep : (ticks : ℕ) → Blocking address k (sleep_current k ticks)
  supervisor_call :
      (c : SvcCounters) (exc_return number r0 : ℕ)
      → Blocking address k (svc_dispatch c k exc_return number r0).1
  timer_claim : Blocking address k (Timer.service_claim k).0

-- A call that returns to its caller, a task or an interrupt handler.
pub data Immediate (k : Kernel) : Kernel → Type 0 where
  semaphore_give : (s : ℕ) → Immediate k (Semaphore.give k s)
  semaphore_give_from_isr : (s : ℕ) → Immediate k (Semaphore.give_from_isr k s)
  mutex_create : (m : ℕ) → m ≢ 0 → Immediate k (Mutex.create k m)
  mutex_unlock : (m : ℕ) → Mutex.is_linked k m ≡ true → Immediate k (Mutex.unlock k m).0
  queue_send_from_isr : (q item : ℕ) → Immediate k (Queue.send_from_isr k q item).0
  task_suspend : (requested : ℕ) → Immediate k (suspend k requested).0
  task_resume : (requested : ℕ) → Immediate k (resume k requested).0
  task_notify :
      (from_isr : Bool) (task_id value : ℕ)
      → Immediate k (Notification.notify from_isr k task_id value).0
  notification_taken : Immediate k (Notification.take_resume k).0
  event_create : (group : ℕ) → Immediate k (EventGroup.create k group)
  event_set :
      (from_isr : Bool) (group bits : ℕ) → Immediate k (EventGroup.set_bits from_isr k group bits).0
  event_taken : (group bits : ℕ) → Immediate k (EventGroup.wait_bits_resume k group bits).0
  yield : Immediate k (request_switch k)
  timer_call : (c : Calls.Call) → Immediate k (Calls.perform k c)

-- A step of the kernel: a call, `JRT_KernelStart`, a change between thread and handler mode, a system tick that
-- continues, or a context switch that restores a task.
pub data Step (address : ℕ → ℕ) (k : Kernel) : Kernel → Type 0 where
  blocking_call :
      {k' : Kernel}
      → k.current ≢ idle_index k
      → (current_task k).state ≡ TaskState.running
      → Blocking address k k'
      → Step address k k'
  immediate_call : {k' : Kernel} → Immediate k k' → Step address k k'
  context : (in_isr : Bool) → Step address k (record k { in_isr = in_isr })
  start : {k' : Kernel} → kernel_start k ≡ some k' → Step address k k'
  tick : {k' : Kernel} → tick_tasks address k ≡ continued k' → Step address k k'
  switch :
      {k' : Kernel} (sp restored_sp : ℕ)
      → pendsv_switch k sp ≡ restored k' restored_sp
      → Step address k k'

-- The states that a kernel reaches from `start`.
pub data Reachable (address : ℕ → ℕ) (start : Kernel) : Kernel → Type 0 where
  here : Reachable address start start
  later :
      {k k' : Kernel} → Reachable address start k → Step address k k' → Reachable address start k'
