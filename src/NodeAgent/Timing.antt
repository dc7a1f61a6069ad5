-- ===== src/NodeAgent/Timing.antt =====
-- apps/node-agent/src/security-timing.ts: the time budget of an access revocation.
use vpnplatform.Base.{
  ℕ, ◌+◌, ◌-◌, ◌*◌, ◌≤◌, ◌≡◌, ◌≢◌, ◌⊎◌, Bool, true, false, arith, if◌then◌else◌, min,
}

abbrev pub access_control_enforcement_sla_ms : ℕ
access_control_enforcement_sla_ms = 5 * 60_000

abbrev pub local_security_retry_delay_ms : ℕ
local_security_retry_delay_ms = 10_000

abbrev pub local_state_integrity_check_interval_ms : ℕ
local_state_integrity_check_interval_ms = 10_000

abbrev pub xray_reload_command_timeout_ms : ℕ
xray_reload_command_timeout_ms = 30_000

abbrev pub xray_docker_command_timeout_ms : ℕ
xray_docker_command_timeout_ms = 2_000

abbrev pub xray_serving_verify_attempts : ℕ
xray_serving_verify_attempts = 10

abbrev pub xray_serving_verify_retry_delay_ms : ℕ
xray_serving_verify_retry_delay_ms = 1_000

abbrev pub xray_serving_verify_max_duration_ms : ℕ
xray_serving_verify_max_duration_ms =
    xray_serving_verify_attempts * 2 * xray_docker_command_timeout_ms
    + (xray_serving_verify_attempts - 1) * xray_serving_verify_retry_delay_ms

abbrev pub xray_apply_max_duration_ms : ℕ
xray_apply_max_duration_ms = xray_reload_command_timeout_ms + xray_serving_verify_max_duration_ms

abbrev pub xray_fail_closed_max_duration_ms : ℕ
xray_fail_closed_max_duration_ms = 3 * xray_docker_command_timeout_ms

abbrev pub local_fail_closed_reserve_ms : ℕ
local_fail_closed_reserve_ms = 120_000

abbrev pub production_xray_max_poll_interval_ms : ℕ
production_xray_max_poll_interval_ms = 60_000

pub data Mode : Type 0 where
  simulation local_xray xray : Mode

abbrev is_production : Mode → Bool
is_production xray = true
is_production _ = false

unfoldable pub effective_control_plane_poll_interval : Mode → ℕ → ℕ
effective_control_plane_poll_interval mode configured =
    if is_production mode then min configured production_xray_max_poll_interval_ms else configured

unfoldable pub effective_control_plane_retry_interval : Mode → ℕ → ℕ
effective_control_plane_retry_interval mode poll =
    if is_production mode then min poll local_security_retry_delay_ms else poll

pub data CycleOutcome : Type 0 where
  synchronized waiting_for_command acknowledged : CycleOutcome

abbrev is_waiting : CycleOutcome → Bool
is_waiting waiting_for_command = true
is_waiting _ = false

unfoldable pub successful_control_plane_cycle_delay : CycleOutcome → ℕ → ℕ → ℕ
successful_control_plane_cycle_delay outcome poll retry = if is_waiting outcome then retry else poll

-- In production the delay between two cycles is at most a minute and never longer than the
-- configured interval, and at most ten seconds while the node waits for a command. After such a
-- delay there is time for the slowest apply, a forced stop and the reserve within the five
-- minutes in which a revocation must be enforced.
pub production_cycle_delay :
    (outcome : CycleOutcome) (configured : ℕ)
    → let poll = effective_control_plane_poll_interval xray configured in
      let retry = effective_control_plane_retry_interval xray poll in
      let wait = successful_control_plane_cycle_delay outcome poll retry in
      (wait ≤ production_xray_max_poll_interval_ms)
      × (wait ≤ configured)
      × ((outcome ≢ waiting_for_command) ⊎ (wait ≤ local_security_retry_delay_ms))
      × (wait + xray_apply_max_duration_ms + xray_fail_closed_max_duration_ms
            + local_fail_closed_reserve_ms
          ≤ access_control_enforcement_sla_ms)
unfolding effective_control_plane_poll_interval effective_control_plane_retry_interval
    successful_control_plane_cycle_delay
production_cycle_delay outcome configured = ground arith

-- Outside production the configured interval is used as it is, for polls and for retries.
pub local_cycle_delay :
    (mode : Mode) (outcome : CycleOutcome) (configured : ℕ)
    → mode ≢ xray
    → let poll = effective_control_plane_poll_interval mode configured in
      let retry = effective_control_plane_retry_interval mode poll in
      successful_control_plane_cycle_delay outcome poll retry ≡ configured
unfolding effective_control_plane_poll_interval effective_control_plane_retry_interval
    successful_control_plane_cycle_delay
local_cycle_delay mode outcome configured other = ground arith
