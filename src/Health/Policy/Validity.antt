-- ===== src/Health/Policy/Validity.antt =====
-- What a policy that was parsed satisfies.
use vpnplatform.Base.{
  ℕ, ◌≤◌, ◌<◌, ◌≡◌, ap, subst, true, Option, none, some, List, [], ◌∷◌, arith, ◌+◌, if◌then◌else◌,
  length,
}
use vpnplatform.Health.Policy.{
  RouteFailureClass, dns, tcp_tls, vpn_handshake, test_traffic, includes, distinct,
  HealthPolicyConfig, health_fields_valid, health_classes_valid, health_thresholds_valid,
  parse_health_policy, CapacityPolicyConfig, capacity_percents_valid, capacity_thresholds_valid,
  parse_capacity_policy,
}

abbrev presence : List RouteFailureClass → RouteFailureClass → ℕ
presence cs c = if includes cs c then 1 else 0

-- A list without repetitions is no longer than the number of classes in it.
length-presence :
    (cs : List RouteFailureClass)
    → distinct cs ≡ true
    → length cs
      ≤ presence cs dns + presence cs tcp_tls + presence cs vpn_handshake + presence cs test_traffic
unfolding distinct
length-presence [] d = omega arith
length-presence (dns ∷ cs) d = ground (arith, length-presence cs)
length-presence (tcp_tls ∷ cs) d = ground (arith, length-presence cs)
length-presence (vpn_handshake ∷ cs) d = ground (arith, length-presence cs)
length-presence (test_traffic ∷ cs) d = ground (arith, length-presence cs)

four_distinct :
    (cs : List RouteFailureClass) (c : RouteFailureClass)
    → length cs ≡ 4
    → distinct cs ≡ true
    → includes cs c ≡ true
four_distinct cs dns n d = ground (arith, length-presence cs)
four_distinct cs tcp_tls n d = ground (arith, length-presence cs)
four_distinct cs vpn_handshake n d = ground (arith, length-presence cs)
four_distinct cs test_traffic n d = ground (arith, length-presence cs)

pub record HealthPolicyOk (p : HealthPolicyConfig) : Type 0 where
  pub quorum_positive : 0 < p.probe_source_quorum
  pub degraded_positive : 0 < p.degraded_failure_cycles
  pub degraded_first : p.degraded_failure_cycles < p.exclude_failure_cycles
  pub recovery_positive : 0 < p.recovery_success_cycles
  pub uncertain_positive : 0 < p.mixed_unknown_degraded_cycles
  pub timeout_short : p.probe_timeout_seconds < p.probe_interval_seconds
  pub all_classes : (c : RouteFailureClass) → includes p.route_failure_classes c ≡ true

parsed_checks :
    (q p : HealthPolicyConfig)
    → parse_health_policy (some q) ≡ some p
    → (q ≡ p)
      × (health_fields_valid q ≡ true)
      × (health_classes_valid q ≡ true)
      × (health_thresholds_valid q ≡ true)
unfolding parse_health_policy
parsed_checks q p e = ground arith

classes_complete :
    (p : HealthPolicyConfig) (c : RouteFailureClass)
    → health_classes_valid p ≡ true
    → includes p.route_failure_classes c ≡ true
unfolding health_classes_valid
classes_complete p c h = ground (arith, four_distinct p.route_failure_classes c)

health_checked :
    (q : HealthPolicyConfig)
    → health_fields_valid q ≡ true
    → health_classes_valid q ≡ true
    → health_thresholds_valid q ≡ true
    → HealthPolicyOk q
unfolding health_fields_valid health_thresholds_valid
health_checked q fields classes thresholds = record {
  quorum_positive = ground (arith, fields);
  degraded_positive = ground (arith, fields);
  degraded_first = ground (arith, thresholds);
  recovery_positive = ground (arith, fields);
  uncertain_positive = ground (arith, fields);
  timeout_short = ground (arith, thresholds);
  all_classes = λ c. classes_complete q c classes;
}

-- A health policy that is parsed is the candidate, unchanged. Its quorum and its thresholds are
-- positive, the degraded threshold precedes the exclusion threshold, a probe times out before
-- the next one starts, and its failure classes are all the classes that a probe can report.
pub parse_health_policy-HealthPolicyOk :
    (candidate : Option HealthPolicyConfig) (p : HealthPolicyConfig)
    → parse_health_policy candidate ≡ some p
    → (candidate ≡ some p) × HealthPolicyOk p
unfolding parse_health_policy
parse_health_policy-HealthPolicyOk none p e = cc
parse_health_policy-HealthPolicyOk (some q) p e =
    let (same, fields, classes, thresholds) = parsed_checks q p e in
    (ap some same, subst HealthPolicyOk same (health_checked q fields classes thresholds))

capacity_checks :
    (q p : CapacityPolicyConfig)
    → parse_capacity_policy (some q) ≡ some p
    → (q ≡ p) × (capacity_percents_valid q ≡ true) × (capacity_thresholds_valid q ≡ true)
unfolding parse_capacity_policy
capacity_checks q p e = ground arith

pub record CapacityPolicyOk (p : CapacityPolicyConfig) : Type 0 where
  pub recovery_first : p.recovery_below_utilization_percent < p.warning_utilization_percent
  pub warning_first : p.warning_utilization_percent < p.stop_assignment_utilization_percent
  pub stop_first : p.stop_assignment_utilization_percent < p.critical_utilization_percent
  pub critical_bounded : p.critical_utilization_percent ≤ 100
  pub disk_stop_below : p.disk_stop_free_percent < p.disk_warning_free_percent
  pub drain_minimum : p.planned_drain_minimum_seconds ≤ p.planned_drain_default_seconds
  pub drain_maximum : p.planned_drain_default_seconds ≤ p.planned_drain_maximum_seconds
  pub target_first : p.promotion_target_seconds < p.promotion_hard_timeout_seconds

capacity_checked :
    (q : CapacityPolicyConfig)
    → capacity_percents_valid q ≡ true
    → capacity_thresholds_valid q ≡ true
    → CapacityPolicyOk q
unfolding capacity_thresholds_valid capacity_percents_valid
capacity_checked q percents thresholds = record {
  recovery_first = ground (arith, thresholds);
  warning_first = ground (arith, thresholds);
  stop_first = ground (arith, thresholds);
  critical_bounded = ground (arith, percents);
  disk_stop_below = ground (arith, thresholds);
  drain_minimum = ground (arith, thresholds);
  drain_maximum = ground (arith, thresholds);
  target_first = ground (arith, thresholds);
}

-- A capacity policy that is parsed is the candidate, unchanged. Its utilization thresholds rise
-- from recovery over warning and stop to critical, which is at most 100 percent, the disk stop
-- threshold lies below the warning, the default drain time lies in its range, and the promotion
-- target precedes the hard timeout.
pub parse_capacity_policy-CapacityPolicyOk :
    (candidate : Option CapacityPolicyConfig) (p : CapacityPolicyConfig)
    → parse_capacity_policy candidate ≡ some p
    → (candidate ≡ some p) × CapacityPolicyOk p
unfolding parse_capacity_policy
parse_capacity_policy-CapacityPolicyOk none p e = cc
parse_capacity_policy-CapacityPolicyOk (some q) p e =
    let (same, percents, thresholds) = capacity_checks q p e in
    (ap some same, subst CapacityPolicyOk same (capacity_checked q percents thresholds))
