-- ===== src/Health/Cycle.antt =====
-- The result of one probe cycle: `aggregateHealthProbeCycle` of
-- packages/orchestration-store/src/health-decision.ts after its loop.
pub mod Quorum
use vpnplatform.Base.{
  if◌then◌else◌, ℕ, ◌+◌, Bool, true, false, ◌&&◌, Option, none, some, List, map, ltb, leb, length,
  filter, find,
}
use vpnplatform.Base.Sort.{sort_by}
use vpnplatform.Health.Policy.{RouteFailureClass, same_class, includes, HealthPolicyConfig}
use vpnplatform.Health.Signals.{
  ProbeOutcome, ProbeSignal, SignalEvaluation, CycleContext, Tally, milliseconds, tally,
}

pub data ProbeCycleDecision : Type 0 where
  success failed mixed unknown : ProbeCycleDecision

pub record ProbeCycleResult : Type 0 where
  pub cycle_started_at : ℕ
  pub decision : ProbeCycleDecision
  pub failure_class : Option RouteFailureClass
  pub signal_ids : List ℕ
  pub rejected_signal_ids : List ℕ
  pub signal_evaluations : List SignalEvaluation
  pub additional_probe_due_at : Option ℕ

abbrev is_source_failure : ProbeOutcome → Bool
is_source_failure ProbeOutcome.probe_source_failure = true
is_source_failure _ = false

abbrev is_success : ProbeOutcome → Bool
is_success ProbeOutcome.success = true
is_success _ = false

abbrev is_failure : ProbeOutcome → Bool
is_failure ProbeOutcome.failure = true
is_failure _ = false

-- `votes` without the sources that failed themselves.
abbrev pub is_route_vote : ProbeSignal → Bool
is_route_vote s = if is_source_failure s.outcome then false else true

abbrev pub is_success_vote : ProbeSignal → Bool
is_success_vote s = is_success s.outcome

abbrev class_counts : HealthPolicyConfig → Option RouteFailureClass → Bool
class_counts policy none = false
class_counts policy (some c) = includes policy.route_failure_classes c

abbrev pub is_failure_vote : HealthPolicyConfig → ProbeSignal → Bool
is_failure_vote policy s = is_failure s.outcome && class_counts policy s.failure_class

abbrev has_class : RouteFailureClass → Option RouteFailureClass → Bool
has_class c none = false
has_class c (some d) = same_class c d

-- `failuresByClass.get(c) ?? []`
abbrev pub failures_of_class : RouteFailureClass → List ProbeSignal → List ProbeSignal
failures_of_class c failures = filter (λ s. has_class c s.failure_class) failures

abbrev pub confirmed_failure_class :
    HealthPolicyConfig → List ProbeSignal → Option RouteFailureClass
confirmed_failure_class policy failures =
    find (λ c. leb policy.probe_source_quorum (length (failures_of_class c failures)))
      policy.route_failure_classes

-- The decision, the failure class and the time of an additional probe, by the three lists.
unfoldable pub decide_cycle :
    HealthPolicyConfig
    → CycleContext
    → List ProbeSignal
    → List ProbeSignal
    → ProbeCycleDecision × Option RouteFailureClass × Option ℕ
decide_cycle policy cycle successes failures =
    if ltb 0 (length successes) && ltb 0 (length failures)
    then (
      mixed,
      none,
      some (cycle.cycle_started_at + milliseconds policy.additional_probe_delay_seconds),
    )
    else elim (confirmed_failure_class policy failures) [
      | some c ↦ (failed, some c, none)
      | none ↦
          if leb policy.probe_source_quorum (length successes)
          then (success, none, none)
          else (unknown, none, none)
    ]

abbrev pub route_votes : Tally → List ProbeSignal
route_votes t = filter is_route_vote t.votes

abbrev pub successes_of : Tally → List ProbeSignal
successes_of t = filter is_success_vote (route_votes t)

abbrev pub failures_of : HealthPolicyConfig → Tally → List ProbeSignal
failures_of policy t = filter (is_failure_vote policy) (route_votes t)

abbrev pub cycle_result : HealthPolicyConfig → CycleContext → Tally → ProbeCycleResult
cycle_result policy cycle t =
    let outcome = decide_cycle policy cycle (successes_of t) (failures_of policy t) in
    record {
      cycle_started_at = cycle.cycle_started_at;
      decision = outcome.0;
      failure_class = outcome.1;
      signal_ids = sort_by ltb (map (λ s. s.id) (route_votes t));
      rejected_signal_ids = sort_by ltb t.rejected_signal_ids;
      signal_evaluations = sort_by (λ a b. ltb a.signal_id b.signal_id) t.signal_evaluations;
      additional_probe_due_at = outcome.2;
    }

unfoldable pub aggregate_health_probe_cycle :
    HealthPolicyConfig → CycleContext → List ProbeSignal → ProbeCycleResult
unfolding tally decide_cycle sort_by
aggregate_health_probe_cycle policy cycle signals =
    cycle_result policy cycle (tally policy cycle signals)
