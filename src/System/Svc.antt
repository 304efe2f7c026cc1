-- ===== src/System/Svc.antt =====
-- The SVC services of port_cm7.c keep the state of the whole kernel.
use just_rt.Common.{ℕ, ◌/◌, ◌%◌, ◌||◌, ◌==◌, ◌≡◌, ◌≢◌, if_intro}
use just_rt.Kernel.{Kernel, current_task, request_switch}
use just_rt.Kernel.TaskState
use just_rt.Service.Lifecycle.{suspend, resume, sleep_current}
use just_rt.Service.Svc.{SvcCounters, svc_dispatch}
use just_rt.System.State.{idle_index, Plain, Plain-refl, Plain-trans}
use just_rt.System.Waits.{request_switch-Plain}
use just_rt.System.Services.{suspend-Plain, resume-Plain, sleep_current-Plain}

pub svc_dispatch-Plain :
    (c : SvcCounters) (k : Kernel) (exc_return number r0 : ℕ)
    → k.current ≢ idle_index k
    → (current_task k).state ≡ TaskState.running
    → Plain k (svc_dispatch c k exc_return number r0).1
unfolding svc_dispatch
svc_dispatch-Plain c k exc_return number r0 hi hr =
    if_intro P ((exc_return / 8 % 2 == 0) || (exc_return / 4 % 2 == 0)) (λ _. Plain-refl k)
      (λ _.
        if_intro P (number == 1) (λ _. request_switch-Plain k)
          (λ _.
            if_intro P (number == 2)
              (λ _. switching (sleep_current k r0) (sleep_current-Plain k r0 hi hr))
              (λ _.
                if_intro P (number == 3) (λ _. request_switch-Plain k)
                  (λ _.
                    if_intro P (number == 4) (λ _. switching (suspend k r0).0 (suspend-Plain k r0))
                      (λ _.
                        if_intro P (number == 5)
                          (λ _. switching (resume k r0).0 (resume-Plain k r0))
                          (λ _. Plain-refl k))))))
  where
    P : SvcCounters × Kernel × ℕ → Type 0
    P o = Plain k o.1

    switching : (after : Kernel) → Plain k after → Plain k (request_switch after)
    switching after p = Plain-trans p (request_switch-Plain after)
