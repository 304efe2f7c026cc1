-- ===== src/Service/Svc.antt =====
-- `svc_dispatch` of arch/cortex_m/port_cm7.c, the services that a task calls by an SVC instruction.
use just_rt.Common.{ℕ, ◌+◌, ◌/◌, ◌%◌, ◌||◌, ◌==◌, if◌then◌else◌, add32}
use just_rt.Kernel.{Kernel, request_switch}
use just_rt.Kernel.Status.{Status}
use just_rt.Service.Lifecycle.{suspend, resume, sleep_current}

-- The value of a status in a register.
abbrev pub status_code : Status → ℕ
status_code Status.ok = 0
status_code Status.invalid_config = 1
status_code Status.too_many_tasks = 2
status_code Status.invalid_entry = 3
status_code Status.invalid_stack = 4
status_code Status.invalid_memory_region = 5
status_code Status.not_initialized = 6
status_code Status.invalid_task = 7
status_code Status.invalid_state = 8
status_code Status.invalid_context = 9
status_code Status.invalid_priority = 10

-- `g_svc_invalid_context`, `g_svc_invalid_service`, and the calls of `board_led_toggle()`.
pub record SvcCounters : Type 0 where
  pub invalid_context : ℕ
  pub invalid_service : ℕ
  pub led_toggles : ℕ

-- `svc_dispatch` for the service number of the instruction, with the stacked r0, which it may
-- change.
unfoldable pub svc_dispatch : SvcCounters → Kernel → ℕ → ℕ → ℕ → SvcCounters × Kernel × ℕ
svc_dispatch c k exc_return number r0 =
    let (suspended, suspend_status) = suspend k r0 in
    let (resumed, resume_status) = resume k r0 in
    if (exc_return / 8 % 2 == 0) || (exc_return / 4 % 2 == 0)
    then (
      record c { invalid_context = add32 c.invalid_context 1 },
      k,
      status_code Status.invalid_context,
    )
    else (if number == 1
        then (c, request_switch k, r0)
        else (if number == 2
            then (c, request_switch (sleep_current k r0), r0)
            else (if number == 3
                then (record c { led_toggles = c.led_toggles + 1 }, request_switch k, r0)
                else (if number == 4
                    then (c, request_switch suspended, status_code suspend_status)
                    else (if number == 5
                        then (c, request_switch resumed, status_code resume_status)
                        else (record c { invalid_service = add32 c.invalid_service 1 }, k, r0))))))
