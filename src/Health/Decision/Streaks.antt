-- ===== src/Health/Decision/Streaks.antt =====
-- Evaluations of one scope in a row, each from the state that the one before it left.
use vpnplatform.Base.{
  ℕ, ◌+◌, ◌≤◌, ◌<◌, ◌≡◌, ◌≢◌, true, none, some, List, [], ◌∷◌, arith, length, All,
}
use vpnplatform.Health.Policy.{HealthPolicyConfig}
use vpnplatform.Health.Cycle.{ProbeCycleDecision, aggregate_health_probe_cycle}
use vpnplatform.Health.Decision.{
  healthy, HealthDecisionState, EvaluateInput, PolicyVersion, advance_state, check_heartbeat,
  context_of, parsed_policy, evaluate_health_cycle,
}
use vpnplatform.Health.Decision.Steps.{IsConsistent, evaluate-IsConsistent, state-policy}

abbrev pub observe : HealthDecisionState → EvaluateInput → HealthDecisionState
observe s input = (evaluate_health_cycle (record input { previous_state = s })).state

abbrev pub run_cycles : HealthDecisionState → List EvaluateInput → HealthDecisionState
run_cycles s [] = s
run_cycles s (input ∷ inputs) = run_cycles (observe s input) inputs

-- From a state in which a healthy scope is a candidate, any number of evaluations leads to such
-- a state.
pub run_cycles-IsConsistent :
    (s : HealthDecisionState) (inputs : List EvaluateInput)
    → IsConsistent s
    → IsConsistent (run_cycles s inputs)
run_cycles-IsConsistent s [] h = h
run_cycles-IsConsistent s (input ∷ inputs) h =
    run_cycles-IsConsistent (observe s input) inputs
      (evaluate-IsConsistent (record input { previous_state = s }) h)

-- The probes of the input fail, under a policy that excludes after `limit` cycles or fewer.
pub record Fails (limit : ℕ) (input : EvaluateInput) : Type 0 where
  pub calm : input.critical_failure ≡ none
  pub version : PolicyVersion
  pub policy : HealthPolicyConfig
  pub parsed : parsed_policy input.policy ≡ some (version, policy)
  pub fails :
      (aggregate_health_probe_cycle policy (context_of input) input.signals).decision
      ≡ ProbeCycleDecision.failed
  pub excludes : policy.exclude_failure_cycles ≤ limit

failed_advance :
    (policy : HealthPolicyConfig) (input : EvaluateInput) (s : HealthDecisionState) (limit : ℕ)
    → policy.exclude_failure_cycles ≤ limit
    → let t =
        (check_heartbeat policy input (advance_state policy input ProbeCycleDecision.failed s)).0 in
      (t.consecutive_failure_cycles ≡ s.consecutive_failure_cycles + 1)
      × (limit ≤ s.consecutive_failure_cycles + 1
          → (t.excluded_from_candidates ≡ true) × (t.status ≢ healthy))
unfolding advance_state check_heartbeat
failed_advance policy input s limit e = ground arith

observe-Fails :
    (limit : ℕ) (s : HealthDecisionState) (input : EvaluateInput)
    → Fails limit input
    → ((observe s input).consecutive_failure_cycles ≡ s.consecutive_failure_cycles + 1)
      × (limit ≤ s.consecutive_failure_cycles + 1
          → ((observe s input).excluded_from_candidates ≡ true)
            × ((observe s input).status ≢ healthy))
observe-Fails limit s input f =
    rw
      (
        state-policy (record input { previous_state = s }) f.version f.policy f.parsed f.calm,
        f.fails,
      )
      (failed_advance f.policy (record input { previous_state = s }) s limit f.excludes)

run_cycles_excluded :
    (limit : ℕ) (s : HealthDecisionState) (input : EvaluateInput) (inputs : List EvaluateInput)
    → All (Fails limit) (input ∷ inputs)
    → limit ≤ s.consecutive_failure_cycles + length (input ∷ inputs)
    → ((run_cycles s (input ∷ inputs)).excluded_from_candidates ≡ true)
      × ((run_cycles s (input ∷ inputs)).status ≢ healthy)
run_cycles_excluded limit s input [] f enough = (observe-Fails limit s input f.0).1 (omega arith)
run_cycles_excluded limit s input (next ∷ inputs) f enough =
    run_cycles_excluded limit (observe s input) next inputs f.1
      (omega (arith, (observe-Fails limit s input f.0).0))

-- Failed cycles in a row, without a trust failure, each under a usable policy whose exclusion
-- threshold is at most a positive limit, exclude the scope from the candidates once they are as
-- many as the limit, whatever its state was before, and it is not healthy then.
pub failures_exclude :
    (limit : ℕ) (s : HealthDecisionState) (inputs : List EvaluateInput)
    → 0 < limit
    → All (Fails limit) inputs
    → limit ≤ length inputs
    → ((run_cycles s inputs).excluded_from_candidates ≡ true)
      × ((run_cycles s inputs).status ≢ healthy)
failures_exclude limit s [] positive f enough = absurd (omega arith)
failures_exclude limit s (input ∷ inputs) positive f enough =
    run_cycles_excluded limit s input inputs f (omega arith)
