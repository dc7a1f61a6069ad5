-- ===== src/Examples/Health.antt =====
-- Probe cycles and evaluations of packages/orchestration-store/src/health-decision.ts at concrete
-- inputs: two probes of different networks report that a route's DNS fails, cycle after cycle.
use vpnplatform.Base.{
  ℕ, ◌≤◌, ◌≡◌, ◌≢◌, refl, true, false, none, some, List, [], ◌∷◌, arith, length, All,
}
use vpnplatform.Health.Policy.{
  RouteFailureClass, dns, tcp_tls, vpn_handshake, test_traffic, distinct, HealthPolicyConfig,
  health_fields_valid, health_classes_valid, health_thresholds_valid, parse_health_policy,
  CapacityPolicyConfig,
}
use vpnplatform.Health.Policy.Validity.{HealthPolicyOk, parse_health_policy-HealthPolicyOk}
use vpnplatform.Health.Signals.{
  ProbeOutcome, ProbeSignal, CycleContext, signal_rejection_reason, tally,
}
use vpnplatform.Health.Cycle.{ProbeCycleDecision, aggregate_health_probe_cycle}
use vpnplatform.Health.Cycle.Quorum.{AreVoters, aggregate-failed_quorum}
use vpnplatform.Health.Decision.{
  healthy, degraded, quarantined, endpoint, HealthDecisionState, PolicyVersion, EvaluateInput,
  heartbeat_stale, parsed_policy, evaluate_health_cycle, advance_state, check_heartbeat,
  finish_decision,
}
use vpnplatform.Health.Decision.Steps.{
  IsConsistent, Recovers, assignments_need_evidence, recovery_needs_gates,
}
use vpnplatform.Health.Decision.Streaks.{
  run_cycles, run_cycles-IsConsistent, Fails, failures_exclude,
}

abbrev policy : HealthPolicyConfig
policy = record {
  heartbeat_interval_seconds = 30;
  probe_interval_seconds = 60;
  probe_timeout_seconds = 10;
  probe_source_quorum = 2;
  degraded_failure_cycles = 1;
  exclude_failure_cycles = 2;
  recovery_success_cycles = 1;
  recovery_minimum_seconds = 60;
  cooldown_seconds = 600;
  stale_heartbeat_seconds = 90;
  result_freshness_seconds = 60;
  mixed_unknown_degraded_cycles = 3;
  additional_probe_delay_seconds = 15;
  partial_blocked_failure_cycles = 3;
  blocked_target_network_quorum = 2;
  route_failure_classes = dns ∷ tcp_tls ∷ vpn_handshake ∷ test_traffic ∷ [];
}

abbrev capacity : CapacityPolicyConfig
capacity = record {
  runtime_freshness_seconds = 60;
  warning_utilization_percent = 70;
  warning_sustain_seconds = 300;
  stop_assignment_utilization_percent = 80;
  stop_assignment_sustain_seconds = 300;
  critical_utilization_percent = 90;
  critical_sustain_seconds = 60;
  recovery_below_utilization_percent = 60;
  recovery_sustain_seconds = 600;
  disk_warning_free_percent = 20;
  disk_stop_free_percent = 10;
  traffic_snapshot_freshness_seconds = 900;
  traffic_forecast_minimum_elapsed_seconds = 86_400;
  traffic_warning_forecast_percent = 80;
  traffic_stop_actual_percent = 90;
  traffic_stop_forecast_percent = 100;
  overage_override_maximum_seconds = 86_400;
  planned_drain_default_seconds = 1_800;
  planned_drain_minimum_seconds = 600;
  planned_drain_maximum_seconds = 3_600;
  promotion_target_seconds = 300;
  promotion_hard_timeout_seconds = 900;
  reserve_aggregate_load_percent = 70;
  reserve_largest_node_multiplier_percent = 100;
  reserve_requires_independent_failure_domain = true;
}

parse_health_policy-HealthPolicyOk_example : (some policy ≡ some policy) × HealthPolicyOk policy
unfolding parse_health_policy health_fields_valid health_classes_valid health_thresholds_valid
    distinct
parse_health_policy-HealthPolicyOk_example =
    parse_health_policy-HealthPolicyOk (some policy) policy refl

abbrev context : CycleContext
context = record { cycle_started_at = 1_000_000; route_version = 4; consumed_signal_ids = 9 ∷ [] }

-- A failure of DNS, or a success, that a source of its own network reports.
abbrev failing : ℕ → ProbeSignal
failing n = record {
  id = n;
  source_id = n;
  independence_key = n;
  cycle_started_at = 1_000_000;
  received_at = 1_000_500;
  authenticated = true;
  control_healthy = true;
  route_version = 4;
  outcome = ProbeOutcome.failure;
  failure_class = some dns;
}

abbrev passing : ℕ → ProbeSignal
passing n = record (failing n) { outcome = ProbeOutcome.success; failure_class = none }

-- The third signal repeats a source, and the last one was consumed before.
abbrev outage : List ProbeSignal
outage = failing 2 ∷ failing 1 ∷ record (failing 3) { source_id = 1 } ∷ failing 9 ∷ []

abbrev calm_cycle : List ProbeSignal
calm_cycle = passing 2 ∷ passing 1 ∷ []

outage_decision :
    (aggregate_health_probe_cycle policy context outage).decision ≡ ProbeCycleDecision.failed
unfolding aggregate_health_probe_cycle signal_rejection_reason
outage_decision = refl

calm_decision :
    (aggregate_health_probe_cycle policy context calm_cycle).decision ≡ ProbeCycleDecision.success
unfolding aggregate_health_probe_cycle signal_rejection_reason
calm_decision = refl

outage_rejections :
    (aggregate_health_probe_cycle policy context outage).rejected_signal_ids ≡ 3 ∷ 9 ∷ []
unfolding aggregate_health_probe_cycle signal_rejection_reason
outage_rejections = refl

aggregate-failed_quorum_example :
    (c : RouteFailureClass) × (voters : List ProbeSignal) × ((aggregate_health_probe_cycle policy
        context outage).failure_class
      ≡ some c)
    × AreVoters policy context outage voters
    × All (λ v. (v.outcome ≡ ProbeOutcome.failure) × (v.failure_class ≡ some c)) voters
    × (policy.probe_source_quorum ≤ length voters)
    × All (λ v. v.outcome ≢ ProbeOutcome.success) (tally policy context outage).votes
aggregate-failed_quorum_example =
    aggregate-failed_quorum policy context outage (omega arith) outage_decision

abbrev fine : HealthDecisionState
fine = record {
  status = healthy;
  excluded_from_candidates = false;
  consecutive_failure_cycles = 0;
  consecutive_recovery_successes = 0;
  recovery_window_started_at = none;
  consecutive_uncertain_cycles = 0;
  cooldown_until = none;
}

abbrev bad : HealthDecisionState
bad = record fine {
  status = degraded;
  excluded_from_candidates = true;
  recovery_window_started_at = some 900_000;
}

abbrev held : HealthDecisionState
held = record fine { status = quarantined; excluded_from_candidates = true }

abbrev input : HealthDecisionState → List ProbeSignal → EvaluateInput
input state signals = record {
  policy = some (record { version = record { id = 1; code = 1 }; config = some policy });
  affected_scope = record { kind = endpoint; id = 5 };
  route_version = 4;
  cycle_started_at = 1_000_000;
  evaluated_at = 1_010_000;
  signals = signals;
  consumed_signal_ids = some (9 ∷ []);
  previous_state = state;
  last_heartbeat_at = some 1_000_000;
  recovery_gates = record {
    clock_trusted = true;
    serving_check_passed = true;
    desired_version = 4;
    applied_version = 4;
  };
  critical_failure = none;
}

run_cycles-IsConsistent_example :
    IsConsistent (run_cycles fine (input fine outage ∷ input fine calm_cycle ∷ []))
run_cycles-IsConsistent_example =
    run_cycles-IsConsistent fine (input fine outage ∷ input fine calm_cycle ∷ []) refl

outage-Fails : Fails 2 (input fine outage)
unfolding parse_health_policy health_fields_valid health_classes_valid health_thresholds_valid
    distinct
outage-Fails = record {
  calm = refl;
  version = record { id = 1; code = 1 };
  policy = policy;
  parsed = refl;
  fails = outage_decision;
  excludes = omega arith;
}

failures_exclude_example :
    ((run_cycles fine (input fine outage ∷ input fine outage ∷ [])).excluded_from_candidates ≡ true)
    × ((run_cycles fine (input fine outage ∷ input fine outage ∷ [])).status ≢ healthy)
failures_exclude_example =
    failures_exclude 2 fine (input fine outage ∷ input fine outage ∷ []) (omega arith)
      (outage-Fails, (outage-Fails, tt)) (omega arith)

assigned : (evaluate_health_cycle (input fine calm_cycle)).allow_new_assignments ≡ true
unfolding evaluate_health_cycle aggregate_health_probe_cycle signal_rejection_reason advance_state
    check_heartbeat finish_decision parse_health_policy health_fields_valid health_classes_valid
    health_thresholds_valid distinct
assigned = refl

assignments_need_evidence_example :
    ((input fine calm_cycle).critical_failure ≡ none)
    × ((evaluate_health_cycle (input fine calm_cycle)).decision ≡ healthy)
    × ((evaluate_health_cycle (input fine calm_cycle)).state.excluded_from_candidates ≡ false)
    × (version : PolicyVersion) × (p : HealthPolicyConfig) × (parsed_policy
          (input fine calm_cycle).policy
        ≡ some (version, p))
    × (heartbeat_stale p (input fine calm_cycle) ≡ false)
assignments_need_evidence_example = assignments_need_evidence (input fine calm_cycle) assigned

recovered : (evaluate_health_cycle (input bad calm_cycle)).decision ≡ healthy
unfolding evaluate_health_cycle aggregate_health_probe_cycle signal_rejection_reason advance_state
    check_heartbeat finish_decision parse_health_policy health_fields_valid health_classes_valid
    health_thresholds_valid distinct
recovered = refl

recovery_needs_gates_example :
    (version : PolicyVersion) × (p : HealthPolicyConfig) × (parsed_policy
        (input bad calm_cycle).policy
      ≡ some (version, p))
    × Recovers p (input bad calm_cycle)
recovery_needs_gates_example = recovery_needs_gates (input bad calm_cycle) (ground arith) recovered
