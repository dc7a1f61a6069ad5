-- ===== src/Health/Decision/Steps.antt =====
-- What one evaluation does to the state of a scope.
use vpnplatform.Base.{
  ◌+◌, ◌≤◌, ◌≡◌, ◌≢◌, refl, ◌⊎◌, true, false, Option, none, some, arith, not, ◌&&◌, get_or, is_some,
}
use vpnplatform.Health.Policy.{HealthPolicyConfig}
use vpnplatform.Health.Signals.{milliseconds}
use vpnplatform.Health.Cycle.{ProbeCycleDecision, aggregate_health_probe_cycle}
use vpnplatform.Health.Decision.{
  healthy, HealthDecisionState, critical_trust_failure, policy_unavailable, quarantine_state,
  degrade_state, EvaluateInput, PolicyVersion, HealthDecision, is_healthy, is_held, is_exclusion,
  is_trust_failure, heartbeat_stale, gates_pass, advance_state, check_heartbeat, finish_decision,
  context_of, parsed_policy, CriticalTrustFailure, version_of, evaluate_by, evaluate_health_cycle,
  Outcome, cooldown_active,
}

abbrev pub decision_of : EvaluateInput → HealthPolicyConfig → ProbeCycleDecision
decision_of input policy =
    (aggregate_health_probe_cycle policy (context_of input) input.signals).decision

-- The state and the reason that a parsed policy leads to.
abbrev pub policy_outcome : EvaluateInput → HealthPolicyConfig → Outcome
policy_outcome input policy =
    check_heartbeat policy input
      (advance_state policy input (decision_of input policy) input.previous_state)

-- A healthy scope is a candidate.
abbrev pub IsConsistent : HealthDecisionState → Type 0
IsConsistent s = is_healthy s.status && s.excluded_from_candidates ≡ false

advance-IsConsistent :
    (policy : HealthPolicyConfig) (input : EvaluateInput) (d : ProbeCycleDecision)
    (s : HealthDecisionState)
    → IsConsistent s
    → IsConsistent (check_heartbeat policy input (advance_state policy input d s)).0
unfolding advance_state check_heartbeat
advance-IsConsistent policy input ProbeCycleDecision.failed s h = ground arith
advance-IsConsistent policy input d s h = ground arith

-- The three ways of an evaluation: a trust failure, no usable policy, and a cycle under a policy.
module _ {ℓ} (P : HealthDecision → Type ℓ) (input : EvaluateInput) where
  evaluate_by_cases :
      (parsed : Option (PolicyVersion × HealthPolicyConfig))
      (critical : Option CriticalTrustFailure)
      → parsed_policy input.policy ≡ parsed
      → input.critical_failure ≡ critical
      → (is_some input.critical_failure ≡ true
          → (version : Option PolicyVersion)
          → P (
              finish_decision input
                (quarantine_state input.previous_state)
                critical_trust_failure
                none
                version))
      → (input.critical_failure ≡ none
          → P (
              finish_decision input
                (degrade_state input.previous_state)
                policy_unavailable
                none
                none))
      → (input.critical_failure ≡ none
          → (version : PolicyVersion) (policy : HealthPolicyConfig)
          → parsed_policy input.policy ≡ some (version, policy)
          → P (
              finish_decision input
                (policy_outcome input policy).0
                (policy_outcome input policy).1
                (some (aggregate_health_probe_cycle policy (context_of input) input.signals))
                (some version)))
      → P (evaluate_by input parsed critical)
  unfolding evaluate_by
  evaluate_by_cases parsed (some f) p c critical unavailable decided =
      critical (ground arith) (version_of parsed)
  evaluate_by_cases none none p c critical unavailable decided = unavailable c
  evaluate_by_cases (some (version, policy)) none p c critical unavailable decided =
      decided c version policy p

-- Under a parsed policy and without a trust failure the cycle decides.
pub state-policy :
    (input : EvaluateInput) (version : PolicyVersion) (policy : HealthPolicyConfig)
    → parsed_policy input.policy ≡ some (version, policy)
    → input.critical_failure ≡ none
    → (evaluate_health_cycle input).state ≡ (policy_outcome input policy).0
unfolding evaluate_health_cycle finish_decision
state-policy input version policy p c = λ i. (evaluate_by input (p i) (c i)).state

-- An evaluation keeps every healthy scope a candidate.
pub evaluate-IsConsistent :
    (input : EvaluateInput)
    → IsConsistent input.previous_state
    → IsConsistent (evaluate_health_cycle input).state
unfolding evaluate_health_cycle finish_decision
evaluate-IsConsistent input h =
    evaluate_by_cases (λ d. IsConsistent d.state) input _ _ refl refl (λ _ _. ground arith)
      (λ _. ground arith)
      (λ _ _ policy _. advance-IsConsistent policy input _ input.previous_state h)

allowed :
    (s : HealthDecisionState)
    → is_healthy s.status && not s.excluded_from_candidates ≡ true
    → (s.status ≡ healthy) × (s.excluded_from_candidates ≡ false)
allowed s h = ground arith

fresh_if_healthy :
    (policy : HealthPolicyConfig) (input : EvaluateInput) (o : Outcome)
    → (check_heartbeat policy input o).0.status ≡ healthy
    → heartbeat_stale policy input ≡ false
unfolding check_heartbeat
fresh_if_healthy policy input (s, r) h = ground arith

-- The recovery of a scope, as the cycle and the gates allow it.
pub record Recovers (policy : HealthPolicyConfig) (input : EvaluateInput) : Type 0 where
  pub confirmed :
      (aggregate_health_probe_cycle policy (context_of input) input.signals).decision
      ≡ ProbeCycleDecision.success
  pub not_held : is_held input.previous_state.status ≡ false
  pub gates : gates_pass policy input ≡ true
  pub often_enough :
      policy.recovery_success_cycles ≤ input.previous_state.consecutive_recovery_successes + 1
  pub long_enough :
      get_or input.previous_state.recovery_window_started_at input.cycle_started_at
        + milliseconds policy.recovery_minimum_seconds
      ≤ input.evaluated_at

recovers_by :
    (policy : HealthPolicyConfig) (input : EvaluateInput) (d : ProbeCycleDecision)
    (s : HealthDecisionState)
    → s.status ≢ healthy
    → (check_heartbeat policy input (advance_state policy input d s)).0.status ≡ healthy
    → (d ≡ ProbeCycleDecision.success)
      × (is_held s.status ≡ false)
      × (gates_pass policy input ≡ true)
      × (policy.recovery_success_cycles ≤ s.consecutive_recovery_successes + 1)
      × (get_or s.recovery_window_started_at input.cycle_started_at
            + milliseconds policy.recovery_minimum_seconds
          ≤ input.evaluated_at)
unfolding advance_state check_heartbeat
recovers_by policy input ProbeCycleDecision.success s was h =
    (refl, ground arith, ground arith, ground arith, ground arith)
recovers_by policy input _ s was h = absurd (ground arith)

recovers :
    (policy : HealthPolicyConfig) (input : EvaluateInput)
    → input.previous_state.status ≢ healthy
    → (policy_outcome input policy).0.status ≡ healthy
    → Recovers policy input
recovers policy input was h =
    let (c, n, g, o, l) = recovers_by policy input _ input.previous_state was h in
    record { confirmed = c; not_held = n; gates = g; often_enough = o; long_enough = l }

held_outcome :
    (policy : HealthPolicyConfig) (input : EvaluateInput) (d : ProbeCycleDecision)
    (s : HealthDecisionState)
    → is_held s.status ≡ true
    → (check_heartbeat policy input (advance_state policy input d s)).0.status ≡ s.status
unfolding advance_state check_heartbeat
held_outcome policy input ProbeCycleDecision.failed s h = ground arith
held_outcome policy input d s h = ground arith

exclusion_excludes :
    (policy : HealthPolicyConfig) (input : EvaluateInput) (d : ProbeCycleDecision)
    (s : HealthDecisionState)
    → let o = check_heartbeat policy input (advance_state policy input d s) in
      (is_trust_failure o.1 ≡ false)
      × (is_exclusion o.1 ≡ true → o.0.excluded_from_candidates ≡ true)
unfolding advance_state check_heartbeat
exclusion_excludes policy input ProbeCycleDecision.failed s = ground arith
exclusion_excludes policy input d s = ground arith

-- A new assignment is allowed only for a healthy scope that is not excluded, under a parsed
-- policy with a heartbeat that is not stale, and without a trust failure.
pub assignments_need_evidence :
    (input : EvaluateInput)
    → (evaluate_health_cycle input).allow_new_assignments ≡ true
    → (input.critical_failure ≡ none)
      × ((evaluate_health_cycle input).decision ≡ healthy)
      × ((evaluate_health_cycle input).state.excluded_from_candidates ≡ false)
      × (version : PolicyVersion) × (policy : HealthPolicyConfig) × (parsed_policy input.policy
          ≡ some (version, policy))
      × (heartbeat_stale policy input ≡ false)
unfolding evaluate_health_cycle finish_decision
assignments_need_evidence input =
    evaluate_by_cases
      (λ d.
        d.allow_new_assignments ≡ true
        → (input.critical_failure ≡ none)
          × (d.decision ≡ healthy)
          × (d.state.excluded_from_candidates ≡ false)
          × (version : PolicyVersion) × (policy : HealthPolicyConfig) × (parsed_policy input.policy
              ≡ some (version, policy))
          × (heartbeat_stale policy input ≡ false))
      input _ _ refl refl (λ _ _ h. absurd (ground arith)) (λ _ h. absurd (ground arith))
      (λ c version policy p h.
        let a = allowed (policy_outcome input policy).0 h in
        (c, a.0, a.1, version, policy, p, fresh_if_healthy policy input _ a.0))

-- A scope that was not healthy becomes healthy only by a SUCCESS cycle that is at least the
-- policy's number of successes in a row, after the policy's recovery window, with a fresh
-- heartbeat, a trusted clock, a passed serving check and an applied configuration; a scope that
-- is quarantined or disabled never does.
pub recovery_needs_gates :
    (input : EvaluateInput)
    → input.previous_state.status ≢ healthy
    → (evaluate_health_cycle input).decision ≡ healthy
    → (version : PolicyVersion) × (policy : HealthPolicyConfig) × (parsed_policy input.policy
        ≡ some (version, policy))
      × Recovers policy input
unfolding evaluate_health_cycle finish_decision
recovery_needs_gates input was =
    evaluate_by_cases
      (λ d.
        d.decision ≡ healthy
        → (version : PolicyVersion) × (policy : HealthPolicyConfig) × (parsed_policy input.policy
            ≡ some (version, policy))
          × Recovers policy input)
      input _ _ refl refl (λ _ _ h. absurd (ground arith)) (λ _ h. absurd (ground arith))
      (λ c version policy p h. (version, policy, p, recovers policy input was h))

-- A quarantined or disabled scope stays so through every evaluation without a trust failure.
pub held_stays :
    (input : EvaluateInput)
    → is_held input.previous_state.status ≡ true
    → input.critical_failure ≡ none
    → (evaluate_health_cycle input).decision ≡ input.previous_state.status
unfolding evaluate_health_cycle finish_decision
held_stays input held calm =
    evaluate_by_cases (λ d. d.decision ≡ input.previous_state.status) input _ _ refl refl
      (λ c _. absurd (ground arith)) (λ _. ground arith)
      (λ _ _ policy _. held_outcome policy input _ _ held)

-- Where an incident is triggered the scope is excluded and takes no new assignment, and a
-- replacement is triggered only together with an incident, and for a failed cycle only outside
-- the cooldown.
pub incident_excludes :
    (input : EvaluateInput)
    → let d = evaluate_health_cycle input in
      ((d.trigger_incident ≡ false)
        ⊎ ((d.state.excluded_from_candidates ≡ true) × (d.allow_new_assignments ≡ false)))
      × ((d.trigger_replacement ≡ false)
          ⊎ ((d.trigger_incident ≡ true)
              × ((d.reason ≡ critical_trust_failure) ⊎ (cooldown_active input d.state ≡ false))))
unfolding evaluate_health_cycle finish_decision
incident_excludes input =
    evaluate_by_cases
      (λ d.
        ((d.trigger_incident ≡ false)
          ⊎ ((d.state.excluded_from_candidates ≡ true) × (d.allow_new_assignments ≡ false)))
        × ((d.trigger_replacement ≡ false)
            ⊎ ((d.trigger_incident ≡ true)
                × ((d.reason ≡ critical_trust_failure) ⊎ (cooldown_active input d.state ≡ false)))))
      input _ _ refl refl (λ _ _. ground arith) (λ _. ground arith)
      (λ _ version policy _.
        ground
          (arith, exclusion_excludes policy input (decision_of input policy) input.previous_state))
