-- ===== src/Health/Decision.antt =====
-- `evaluateHealthCycle` of packages/orchestration-store/src/health-decision.ts. A difference of
-- two instants that is compared with a duration is written as a sum on the other side.
pub mod Steps
pub mod Streaks
use vpnplatform.Base.{
  if◌then◌else◌, ℕ, ◌+◌, Bool, true, false, ◌&&◌, ◌||◌, not, Option, none, some, List, [], ◌∷◌, ltb,
  leb, ◌==◌, get_or,
}
use vpnplatform.Health.Policy.{HealthPolicyConfig, parse_health_policy}
use vpnplatform.Health.Signals.{ProbeSignal, CycleContext, milliseconds}
use vpnplatform.Health.Cycle.{ProbeCycleDecision, ProbeCycleResult, aggregate_health_probe_cycle}

pub data HealthStatus : Type 0 where
  unknown healthy degraded partially_blocked quarantined blocked offline disabled : HealthStatus

pub data HealthScopeKind : Type 0 where
  profile endpoint node provider_asn : HealthScopeKind

pub record HealthDecisionState : Type 0 where
  pub status : HealthStatus
  pub excluded_from_candidates : Bool
  pub consecutive_failure_cycles : ℕ
  pub consecutive_recovery_successes : ℕ
  pub recovery_window_started_at : Option ℕ
  pub consecutive_uncertain_cycles : ℕ
  pub cooldown_until : Option ℕ

pub data HealthDecisionReason : Type 0 where
  policy_unavailable critical_trust_failure stale_heartbeat : HealthDecisionReason
  failed_cycle_observed failure_threshold_reached : HealthDecisionReason
  exclusion_threshold_reached success_confirmed recovery_pending : HealthDecisionReason
  recovery_confirmed mixed_cycle unknown_cycle : HealthDecisionReason
  uncertainty_threshold_reached : HealthDecisionReason

pub record AffectedScope : Type 0 where
  pub kind : HealthScopeKind
  pub id : ℕ

pub record PolicyVersion : Type 0 where
  pub id : ℕ
  pub code : ℕ

pub record PolicyInput : Type 0 where
  pub version : PolicyVersion
  pub config : Option HealthPolicyConfig

pub data TrustFailureKind : Type 0 where
  untrusted_clock credential_compromise unsafe_runtime : TrustFailureKind

pub record CriticalTrustFailure : Type 0 where
  pub signal_id : ℕ
  pub kind : TrustFailureKind

pub record RecoveryGates : Type 0 where
  pub clock_trusted : Bool
  pub serving_check_passed : Bool
  pub desired_version : ℕ
  pub applied_version : ℕ

pub record EvaluateInput : Type 0 where
  pub policy : Option PolicyInput
  pub affected_scope : AffectedScope
  pub route_version : ℕ
  pub cycle_started_at : ℕ
  pub evaluated_at : ℕ
  pub signals : List ProbeSignal
  pub consumed_signal_ids : Option (List ℕ)
  pub previous_state : HealthDecisionState
  pub last_heartbeat_at : Option ℕ
  pub recovery_gates : RecoveryGates
  pub critical_failure : Option CriticalTrustFailure

pub record HealthDecision : Type 0 where
  pub decision : HealthStatus
  pub reason : HealthDecisionReason
  pub affected_scope : AffectedScope
  pub policy_version : Option PolicyVersion
  pub signal_ids : List ℕ
  pub cycle : Option ProbeCycleResult
  pub state : HealthDecisionState
  pub allow_new_assignments : Bool
  pub trigger_replacement : Bool
  pub trigger_incident : Bool

abbrev pub is_healthy : HealthStatus → Bool
is_healthy healthy = true
is_healthy _ = false

-- QUARANTINED and DISABLED, which no probe cycle ends.
abbrev pub is_held : HealthStatus → Bool
is_held quarantined = true
is_held disabled = true
is_held _ = false

abbrev pub at_least_degraded : HealthStatus → HealthStatus
at_least_degraded healthy = degraded
at_least_degraded unknown = degraded
at_least_degraded other = other

abbrev pub heartbeat_stale : HealthPolicyConfig → EvaluateInput → Bool
heartbeat_stale policy input = elim input.last_heartbeat_at [
  | none ↦ true
  | some at ↦ ltb (at + milliseconds policy.stale_heartbeat_seconds) input.evaluated_at
]

abbrev pub heartbeat_fresh : HealthPolicyConfig → EvaluateInput → Bool
heartbeat_fresh policy input = elim input.last_heartbeat_at [
  | none ↦ false
  | some at ↦ leb input.evaluated_at (at + milliseconds policy.stale_heartbeat_seconds)
]

abbrev pub gates_pass : HealthPolicyConfig → EvaluateInput → Bool
gates_pass policy input =
    heartbeat_fresh policy input
    && input.recovery_gates.clock_trusted
    && input.recovery_gates.serving_check_passed
    && input.recovery_gates.desired_version == input.recovery_gates.applied_version

abbrev pub Outcome : Type 0
Outcome = HealthDecisionState × HealthDecisionReason

-- The branch of a FAILED cycle.
on_failed : HealthPolicyConfig → HealthDecisionState → Outcome
on_failed policy previous =
    let state = record previous {
      consecutive_failure_cycles = previous.consecutive_failure_cycles + 1;
      consecutive_recovery_successes = 0;
      recovery_window_started_at = none;
      consecutive_uncertain_cycles = 0;
    } in
    if leb policy.exclude_failure_cycles state.consecutive_failure_cycles
    then (
      record state { status = at_least_degraded state.status; excluded_from_candidates = true },
      exclusion_threshold_reached,
    )
    else if leb policy.degraded_failure_cycles state.consecutive_failure_cycles
    then (record state { status = at_least_degraded state.status }, failure_threshold_reached)
    else (state, failed_cycle_observed)

-- The branch of a SUCCESS cycle.
on_success : HealthPolicyConfig → EvaluateInput → HealthDecisionState → Outcome
on_success policy input previous =
    let state = record previous {
      consecutive_failure_cycles = 0;
      consecutive_uncertain_cycles = 0;
    } in
    let window = get_or state.recovery_window_started_at input.cycle_started_at in
    let recovering = record state {
      consecutive_recovery_successes = state.consecutive_recovery_successes + 1;
      recovery_window_started_at = some window;
    } in
    if is_healthy state.status
    then (
      record state { consecutive_recovery_successes = 0; recovery_window_started_at = none },
      success_confirmed,
    )
    else if not (is_held recovering.status)
        && leb policy.recovery_success_cycles recovering.consecutive_recovery_successes
        && leb (window + milliseconds policy.recovery_minimum_seconds) input.evaluated_at
        && gates_pass policy input
    then (
      record recovering {
        status = healthy;
        excluded_from_candidates = false;
        consecutive_recovery_successes = 0;
        recovery_window_started_at = none;
        cooldown_until = some (input.evaluated_at + milliseconds policy.cooldown_seconds);
      },
      recovery_confirmed,
    )
    else (recovering, recovery_pending)

-- The branch of a MIXED or UNKNOWN cycle, with the reason below the threshold.
on_uncertain : HealthPolicyConfig → HealthDecisionReason → HealthDecisionState → Outcome
on_uncertain policy reason previous =
    let state = record previous {
      consecutive_uncertain_cycles = previous.consecutive_uncertain_cycles + 1;
      consecutive_recovery_successes = 0;
      recovery_window_started_at = none;
    } in
    if leb policy.mixed_unknown_degraded_cycles state.consecutive_uncertain_cycles
    then (record state { status = at_least_degraded state.status }, uncertainty_threshold_reached)
    else (state, reason)

unfoldable pub advance_state :
    HealthPolicyConfig → EvaluateInput → ProbeCycleDecision → HealthDecisionState → Outcome
unfolding on_failed on_success on_uncertain
advance_state policy input ProbeCycleDecision.failed state = on_failed policy state
advance_state policy input ProbeCycleDecision.success state = on_success policy input state
advance_state policy input ProbeCycleDecision.mixed state = on_uncertain policy mixed_cycle state
advance_state policy input ProbeCycleDecision.unknown state =
    on_uncertain policy unknown_cycle state

-- The heartbeat check that follows the branches.
unfoldable pub check_heartbeat : HealthPolicyConfig → EvaluateInput → Outcome → Outcome
check_heartbeat policy input (state, reason) =
    if heartbeat_stale policy input && is_healthy state.status
    then (record state { status = degraded }, stale_heartbeat)
    else (state, reason)

abbrev pub is_exclusion : HealthDecisionReason → Bool
is_exclusion exclusion_threshold_reached = true
is_exclusion _ = false

abbrev pub is_trust_failure : HealthDecisionReason → Bool
is_trust_failure critical_trust_failure = true
is_trust_failure _ = false

abbrev pub cooldown_active : EvaluateInput → HealthDecisionState → Bool
cooldown_active input state = elim state.cooldown_until [
  | none ↦ false
  | some until ↦ ltb input.evaluated_at until
]

abbrev decision_signal_ids : EvaluateInput → Option ProbeCycleResult → List ℕ
decision_signal_ids input (some cycle) = cycle.signal_ids
decision_signal_ids input none = elim input.critical_failure [
  | none ↦ []
  | some f ↦ f.signal_id ∷ []
]

unfoldable pub finish_decision :
    EvaluateInput
    → HealthDecisionState
    → HealthDecisionReason
    → Option ProbeCycleResult
    → Option PolicyVersion
    → HealthDecision
finish_decision input state reason cycle policy_version = record {
  decision = state.status;
  reason = reason;
  affected_scope = input.affected_scope;
  policy_version = policy_version;
  signal_ids = decision_signal_ids input cycle;
  cycle = cycle;
  state = state;
  allow_new_assignments = is_healthy state.status && not state.excluded_from_candidates;
  trigger_replacement =
      is_trust_failure reason || (is_exclusion reason && not (cooldown_active input state));
  trigger_incident = is_exclusion reason || is_trust_failure reason;
}

abbrev pub quarantine_state : HealthDecisionState → HealthDecisionState
quarantine_state state = record state {
  status = quarantined;
  excluded_from_candidates = true;
  consecutive_recovery_successes = 0;
  recovery_window_started_at = none;
}

-- `input.policy` with its config parsed: `none` where either is missing.
abbrev pub parsed_policy : Option PolicyInput → Option (PolicyVersion × HealthPolicyConfig)
parsed_policy none = none
parsed_policy (some p) = elim (parse_health_policy p.config) [
  | none ↦ none
  | some config ↦ some (p.version, config)
]

-- The state where there is no usable policy.
abbrev pub degrade_state : HealthDecisionState → HealthDecisionState
degrade_state state = record state { status = at_least_degraded state.status }

abbrev pub version_of : Option (PolicyVersion × HealthPolicyConfig) → Option PolicyVersion
version_of none = none
version_of (some (version, _)) = some version

abbrev pub context_of : EvaluateInput → CycleContext
context_of input = record {
  cycle_started_at = input.cycle_started_at;
  route_version = input.route_version;
  consumed_signal_ids = get_or input.consumed_signal_ids [];
}

-- A trust failure comes first, then a policy that is missing or refused, then the cycle.
unfoldable pub evaluate_by :
    EvaluateInput
    → Option (PolicyVersion × HealthPolicyConfig)
    → Option CriticalTrustFailure
    → HealthDecision
evaluate_by input parsed (some _) =
    finish_decision input (quarantine_state input.previous_state) critical_trust_failure none
      (version_of parsed)
evaluate_by input none none =
    finish_decision input (degrade_state input.previous_state) policy_unavailable none none
evaluate_by input (some (version, policy)) none =
    let cycle = aggregate_health_probe_cycle policy (context_of input) input.signals in
    let outcome =
      check_heartbeat policy input
        (advance_state policy input cycle.decision input.previous_state) in
    finish_decision input outcome.0 outcome.1 (some cycle) (some version)

unfoldable pub evaluate_health_cycle : EvaluateInput → HealthDecision
unfolding evaluate_by
evaluate_health_cycle input = evaluate_by input (parsed_policy input.policy) input.critical_failure
