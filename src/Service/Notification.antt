-- ===== src/Service/Notification.antt =====
-- Task notifications of task.c: `task_notify_common` and `JRT_TaskNotifyTake`.
use just_rt.Common.{
  ℕ, ◌+◌, ◌%◌, ◌<◌, ◌≡◌, Bool, not, ◌&&◌, true, false, arith, ltb, ◌==◌, ◌!=◌, if◌then◌else◌, add32,
  update, ==_refl, List, [], ◌∷◌, ap, ◌∙◌, lt→ltb,
}
use just_rt.Kernel.{Task, Kernel, current_task, request_switch}
use just_rt.Kernel.TaskState
use just_rt.Kernel.WaitKind
use just_rt.Wait.{Outcome, returned, blocked, end_wait, wait_begin}

-- What `task_notify_common` does to the task.
unfoldable pub notified : Task → ℕ → Task
notified t value =
    let added = record t { notification_value = add32 t.notification_value value } in
    if (t.state == TaskState.blocked) && (t.wait_kind == WaitKind.notification)
    then end_wait added 1
    else added

-- `task_notify_common`; `from_isr` tells the two callers apart.
unfoldable pub notify : Bool → Kernel → ℕ → ℕ → Kernel × ℕ
notify from_isr k task_id value =
    if (if from_isr then not k.in_isr else k.in_isr)
    then (k, 0)
    else (if ltb task_id k.task_count
        then (
          request_switch
              (record k { tasks = update k.tasks task_id (notified (k.tasks task_id) value) }),
          1,
        )
        else (k, 0))

abbrev pub set_notification : Kernel → ℕ → Kernel
set_notification k value = record k {
  tasks = update k.tasks k.current (record (current_task k) { notification_value = value });
}

-- How `JRT_TaskNotifyTake` ends its first part: it returns with the value stored through `value`
-- (0 if none is), or blocks. The address of the task itself is the wait object.
unfoldable pub take : (ℕ → ℕ) → Kernel → ℕ → Outcome × ℕ
take address k timeout =
    let notification = (current_task k).notification_value in
    if k.in_isr
    then (returned k 0, 0)
    else (if notification != 0
        then (returned (set_notification k 0) 1, notification)
        else (if timeout == 0 then (returned k 0, 0) else (
          blocked (
              request_switch
                (wait_begin k k.current (address k.current) WaitKind.notification timeout)),
          0,
        )))

-- `JRT_TaskNotifyTake` after `arch_yield()`: the result and the value.
unfoldable pub take_resume : Kernel → Kernel × ℕ × ℕ
take_resume k =
    let notification = (current_task k).notification_value in
    (set_notification k 0, (if notification != 0 then 1 else 0), notification)

-- `JRT_TaskNotify` once for each value.
unfoldable pub notify_all : Kernel → ℕ → List ℕ → Kernel
notify_all k i [] = k
notify_all k i (v ∷ vs) = notify_all (notify false k i v).0 i vs

unfoldable pub total : List ℕ → ℕ
total [] = 0
total (v ∷ vs) = v + total vs

notified-value :
    (t : Task) (v : ℕ) → (notified t v).notification_value ≡ add32 t.notification_value v
unfolding notified end_wait
notified-value t v = ground arith

notify-frame :
    (k : Kernel) (i v : ℕ)
    → k.in_isr ≡ false
    → i < k.task_count
    → (notify false k i v).0
      ≡ request_switch (record k { tasks = update k.tasks i (notified (k.tasks i) v) })
unfolding notify
notify-frame k i v h hi =
    let inside : ltb i k.task_count ≡ true = lt→ltb i k.task_count hi in rw (h, inside)

notify_all-value :
    (k : Kernel) (i : ℕ) (vs : List ℕ)
    → k.in_isr ≡ false
    → i < k.task_count
    → (k.tasks i).notification_value < 4294967296
    → ((notify_all k i vs).tasks i).notification_value
      ≡ add32 (k.tasks i).notification_value (total vs)
unfolding notify_all total
notify_all-value k i [] h hi hv = omega arith
notify_all-value k i (v ∷ vs) h hi hv =
    let k' : Kernel =
      request_switch (record k { tasks = update k.tasks i (notified (k.tasks i) v) }) in
    let added : (k'.tasks i).notification_value ≡ add32 (k.tasks i).notification_value v =
      rw (==_refl i) (notified-value (k.tasks i) v) in
    let rest = notify_all-value k' i vs h hi (omega (arith, added)) in
    ap (λ (after : Kernel). ((notify_all after i vs).tasks i).notification_value)
      (notify-frame k i v h hi)
    ∙ rest
    ∙ omega (arith, added)

-- However many times `JRT_TaskNotify` is called before the task runs again, `JRT_TaskNotifyTake`
-- then takes the sum of the values, modulo 2 ^ 32 as the counter is a `uint32_t`, with the result 1
-- if it is not 0, and leaves 0.
pub take_resume-notify_all :
    (k : Kernel) (i : ℕ) (vs : List ℕ)
    → k.in_isr ≡ false
    → i < k.task_count
    → (k.tasks i).notification_value ≡ 0
    → let taken = take_resume (record (notify_all k i vs) { current = i }) in
      (taken.1 ≡ (if total vs % 4294967296 != 0 then 1 else 0))
      × (taken.2 ≡ total vs % 4294967296)
      × ((taken.0.tasks i).notification_value ≡ 0)
unfolding take_resume
take_resume-notify_all k i vs h hi h0 =
    let value = notify_all-value k i vs h hi (omega (arith, h0)) in
    let sum : ((notify_all k i vs).tasks i).notification_value ≡ total vs % 4294967296 =
      omega (arith, value, h0) in
    (rw sum, sum, rw (==_refl i))
