-- ===== src/System/Services.antt =====
-- Suspension, sleep and notifications of task.c keep the state of the whole kernel.
use just_rt.Common.{
  ℕ, ◌<◌, ◌≡◌, ◌≢◌, inl, inr, Bool, true, false, not, ltb, ◌==◌, ◌!=◌, if_intro, arith,
  Option-cases, some, if◌then◌else◌, update, refl,
}
use just_rt.Kernel.{Task, Kernel, current_task}
use just_rt.Kernel.TaskState
use just_rt.Kernel.WaitKind
use just_rt.Kernel.Status.{Status}
use just_rt.Wait.{Outcome, end_wait, wait_deadline}
use just_rt.Service.Lifecycle.{resolve, suspend, resume, sleep_current, cannot_suspend}
use just_rt.Service.Notification.{notified, notify, take, take_resume}
use just_rt.System.Moves.{Calm, Calm-Moves, Yields-Moves, begin_wait-Yields}
use just_rt.System.State.{idle_index, Plain, PlainOutcome, Plain-refl, Plain-trans, tasks-Plain}
use just_rt.System.Waits.{request_switch-Plain}

resolve-lt :
    (k : Kernel) (requested : ℕ) (allow_self : Bool) (i : ℕ)
    → resolve k requested allow_self ≡ some i
    → i < k.application_task_count
unfolding resolve
resolve-lt k requested allow_self i h = ground (arith, h)

-- `kernel_task_suspend`
pub suspend-Plain : (k : Kernel) (requested : ℕ) → Plain k (suspend k requested).0
unfolding suspend cannot_suspend
suspend-Plain k requested =
    if_intro P (k.initialized == 0) (λ _. Plain-refl k)
      (λ _.
        if_intro P (k.started == 0) (λ _. Plain-refl k)
          (λ _. elim (Option-cases (resolve k requested true)) [
            | inl e ↦ rw e (Plain-refl k)
            | inr (i, e) ↦ rw e (
                if_intro P (cannot_suspend k i) (λ _. Plain-refl k)
                  (λ can. tasks-Plain k _ (
                    Yields-Moves (idle_index k) k.tasks i _
                      (omega (arith, resolve-lt k requested true i e))
                      (record {
                        keeps = λ v. ground (arith, v, can);
                        region = refl;
                        starts = λ s. absurd (omega (arith, s));
                      }))))
          ]))
  where
    P : Kernel × Status → Type 0
    P o = Plain k o.0

-- `kernel_task_resume`
pub resume-Plain : (k : Kernel) (requested : ℕ) → Plain k (resume k requested).0
unfolding resume
resume-Plain k requested =
    if_intro P (k.initialized == 0) (λ _. Plain-refl k)
      (λ _.
        if_intro P (k.started == 0) (λ _. Plain-refl k)
          (λ _. elim (Option-cases (resolve k requested false)) [
            | inl e ↦ rw e (Plain-refl k)
            | inr (i, e) ↦ rw e (
                if_intro P ((k.tasks i).state != TaskState.suspended) (λ _. Plain-refl k)
                  (λ can. tasks-Plain k _ (
                    Yields-Moves (idle_index k) k.tasks i _
                      (omega (arith, resolve-lt k requested false i e))
                      (record {
                        keeps = λ v. ground (arith, v, can);
                        region = refl;
                        starts = λ s. absurd (omega (arith, s));
                      }))))
          ]))
  where
    P : Kernel × Status → Type 0
    P o = Plain k o.0

-- `sleep_current`
pub sleep_current-Plain :
    (k : Kernel) (ticks : ℕ)
    → k.current ≢ idle_index k
    → (current_task k).state ≡ TaskState.running
    → Plain k (sleep_current k ticks)
unfolding sleep_current
sleep_current-Plain k ticks hi hr = tasks-Plain k _ (
    Yields-Moves (idle_index k) k.tasks k.current _ hi (record {
      keeps = λ v. ground (arith, v, hr);
      region = ground arith;
      starts = λ s. ground (arith, s);
    }))

notified-Calm : (t : Task) (value : ℕ) → Calm t (notified t value)
unfolding notified end_wait
notified-Calm t value = record {
  keeps = λ v. ground (arith, v);
  region = ground arith;
  starts = λ s. ground (arith, s);
  ready = λ s. ground (arith, s);
  running = λ s. ground (arith, s);
}

-- `task_notify_common`
pub notify-Plain :
    (from_isr : Bool) (k : Kernel) (task_id value : ℕ) → Plain k (notify from_isr k task_id value).0
unfolding notify
notify-Plain from_isr k task_id value =
    if_intro P (if from_isr then not k.in_isr else k.in_isr) (λ _. Plain-refl k)
      (λ _.
        if_intro P (ltb task_id k.task_count)
          (λ _.
            Plain-trans
              (tasks-Plain k _ (
                Calm-Moves (idle_index k) k.tasks task_id _
                  (notified-Calm (k.tasks task_id) value)))
              (request_switch-Plain _))
          (λ _. Plain-refl k))
  where
    P : Kernel × ℕ → Type 0
    P o = Plain k o.0

set_notification-Plain :
    (k : Kernel) (value : ℕ)
    → Plain k (record k {
      tasks = update k.tasks k.current (record (current_task k) { notification_value = value });
    })
set_notification-Plain k value = tasks-Plain k _ (
    Calm-Moves (idle_index k) k.tasks k.current _ (record {
      keeps = λ v. ground (arith, v);
      region = refl;
      starts = λ s. s;
      ready = λ s. s;
      running = λ s. inl s;
    }))

-- `JRT_TaskNotifyTake`
pub take-Plain :
    (address : ℕ → ℕ) (k : Kernel) (timeout : ℕ)
    → k.current ≢ idle_index k
    → address k.current ≢ 0
    → PlainOutcome k (take address k timeout).0
unfolding take
take-Plain address k timeout hi ha =
    if_intro P k.in_isr (λ _. Plain-refl k)
      (λ _.
        if_intro P ((current_task k).notification_value != 0) (λ _. set_notification-Plain k 0)
          (λ _.
            if_intro P (timeout == 0) (λ _. Plain-refl k)
              (λ _.
                Plain-trans
                  (tasks-Plain k _ (
                    Yields-Moves (idle_index k) k.tasks k.current _ hi (
                      begin_wait-Yields (k.tasks k.current) (address k.current)
                        WaitKind.notification (wait_deadline k timeout) ha (omega arith)
                        (omega arith))))
                  (request_switch-Plain _))))
  where
    P : Outcome × ℕ → Type 0
    P o = PlainOutcome k o.0

pub take_resume-Plain : (k : Kernel) → Plain k (take_resume k).0
unfolding take_resume
take_resume-Plain k = set_notification-Plain k 0
