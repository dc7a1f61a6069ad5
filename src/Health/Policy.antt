-- ===== src/Health/Policy.antt =====
-- The policy schemas of packages/orchestration-store/src/operational-policy.ts. A candidate is
-- an object of the schema's strict shape whose numbers are natural; what zod refuses for its
-- shape alone is `none` where a policy is parsed.
pub mod Validity
use vpnplatform.Base.{
  ℕ, Bool, true, false, ◌&&◌, not, Option, none, some, List, [], ◌∷◌, ltb, leb, ◌==◌, if◌then◌else◌,
  length, any, ◌≡◌, arith,
}

pub data RouteFailureClass : Type 0 where
  dns tcp_tls vpn_handshake test_traffic : RouteFailureClass

abbrev pub same_class : RouteFailureClass → RouteFailureClass → Bool
same_class dns dns = true
same_class tcp_tls tcp_tls = true
same_class vpn_handshake vpn_handshake = true
same_class test_traffic test_traffic = true
same_class _ _ = false

pub same_class-eq : (c d : RouteFailureClass) → same_class c d ≡ true → c ≡ d
same_class-eq c d h = ground arith

-- `classes.includes(c)`
abbrev pub includes : List RouteFailureClass → RouteFailureClass → Bool
includes cs c = any (same_class c) cs

-- `new Set(classes).size === classes.length`
unfoldable pub distinct : List RouteFailureClass → Bool
distinct [] = true
distinct (c ∷ cs) = not (includes cs c) && distinct cs

abbrev pub positive_database_integer : ℕ → Bool
positive_database_integer n = ltb 0 n && leb n 2_147_483_647

abbrev pub percent : ℕ → Bool
percent n = leb n 100

pub record HealthPolicyConfig : Type 0 where
  pub heartbeat_interval_seconds : ℕ
  pub probe_interval_seconds : ℕ
  pub probe_timeout_seconds : ℕ
  pub probe_source_quorum : ℕ
  pub degraded_failure_cycles : ℕ
  pub exclude_failure_cycles : ℕ
  pub recovery_success_cycles : ℕ
  pub recovery_minimum_seconds : ℕ
  pub cooldown_seconds : ℕ
  pub stale_heartbeat_seconds : ℕ
  pub result_freshness_seconds : ℕ
  pub mixed_unknown_degraded_cycles : ℕ
  pub additional_probe_delay_seconds : ℕ
  pub partial_blocked_failure_cycles : ℕ
  pub blocked_target_network_quorum : ℕ
  pub route_failure_classes : List RouteFailureClass

unfoldable pub health_fields_valid : HealthPolicyConfig → Bool
health_fields_valid p =
    positive_database_integer p.heartbeat_interval_seconds
    && positive_database_integer p.probe_interval_seconds
    && positive_database_integer p.probe_timeout_seconds
    && positive_database_integer p.probe_source_quorum
    && positive_database_integer p.degraded_failure_cycles
    && positive_database_integer p.exclude_failure_cycles
    && positive_database_integer p.recovery_success_cycles
    && positive_database_integer p.recovery_minimum_seconds
    && positive_database_integer p.cooldown_seconds
    && positive_database_integer p.stale_heartbeat_seconds
    && positive_database_integer p.result_freshness_seconds
    && positive_database_integer p.mixed_unknown_degraded_cycles
    && positive_database_integer p.additional_probe_delay_seconds
    && positive_database_integer p.partial_blocked_failure_cycles
    && positive_database_integer p.blocked_target_network_quorum

unfoldable pub health_classes_valid : HealthPolicyConfig → Bool
unfolding distinct
health_classes_valid p = length p.route_failure_classes == 4 && distinct p.route_failure_classes

unfoldable pub health_thresholds_valid : HealthPolicyConfig → Bool
health_thresholds_valid p =
    ltb p.degraded_failure_cycles p.exclude_failure_cycles
    && ltb p.probe_timeout_seconds p.probe_interval_seconds

-- `healthPolicyConfigSchema.safeParse(config)`
unfoldable pub parse_health_policy : Option HealthPolicyConfig → Option HealthPolicyConfig
parse_health_policy none = none
parse_health_policy (some p) =
    if health_fields_valid p && health_classes_valid p && health_thresholds_valid p
    then some p
    else none

pub record CapacityPolicyConfig : Type 0 where
  pub runtime_freshness_seconds : ℕ
  pub warning_utilization_percent : ℕ
  pub warning_sustain_seconds : ℕ
  pub stop_assignment_utilization_percent : ℕ
  pub stop_assignment_sustain_seconds : ℕ
  pub critical_utilization_percent : ℕ
  pub critical_sustain_seconds : ℕ
  pub recovery_below_utilization_percent : ℕ
  pub recovery_sustain_seconds : ℕ
  pub disk_warning_free_percent : ℕ
  pub disk_stop_free_percent : ℕ
  pub traffic_snapshot_freshness_seconds : ℕ
  pub traffic_forecast_minimum_elapsed_seconds : ℕ
  pub traffic_warning_forecast_percent : ℕ
  pub traffic_stop_actual_percent : ℕ
  pub traffic_stop_forecast_percent : ℕ
  pub overage_override_maximum_seconds : ℕ
  pub planned_drain_default_seconds : ℕ
  pub planned_drain_minimum_seconds : ℕ
  pub planned_drain_maximum_seconds : ℕ
  pub promotion_target_seconds : ℕ
  pub promotion_hard_timeout_seconds : ℕ
  pub reserve_aggregate_load_percent : ℕ
  pub reserve_largest_node_multiplier_percent : ℕ
  pub reserve_requires_independent_failure_domain : Bool

unfoldable pub capacity_durations_valid : CapacityPolicyConfig → Bool
capacity_durations_valid p =
    positive_database_integer p.runtime_freshness_seconds
    && positive_database_integer p.warning_sustain_seconds
    && positive_database_integer p.stop_assignment_sustain_seconds
    && positive_database_integer p.critical_sustain_seconds
    && positive_database_integer p.recovery_sustain_seconds
    && positive_database_integer p.traffic_snapshot_freshness_seconds
    && positive_database_integer p.traffic_forecast_minimum_elapsed_seconds
    && positive_database_integer p.overage_override_maximum_seconds
    && positive_database_integer p.planned_drain_default_seconds
    && positive_database_integer p.planned_drain_minimum_seconds
    && positive_database_integer p.planned_drain_maximum_seconds
    && positive_database_integer p.promotion_target_seconds
    && positive_database_integer p.promotion_hard_timeout_seconds

unfoldable pub capacity_percents_valid : CapacityPolicyConfig → Bool
capacity_percents_valid p =
    percent p.warning_utilization_percent
    && percent p.stop_assignment_utilization_percent
    && percent p.critical_utilization_percent
    && percent p.recovery_below_utilization_percent
    && percent p.disk_warning_free_percent
    && percent p.disk_stop_free_percent
    && percent p.traffic_warning_forecast_percent
    && percent p.traffic_stop_actual_percent
    && percent p.reserve_aggregate_load_percent
    && leb 100 p.reserve_largest_node_multiplier_percent
    && p.reserve_requires_independent_failure_domain

unfoldable pub capacity_thresholds_valid : CapacityPolicyConfig → Bool
capacity_thresholds_valid p =
    (ltb p.recovery_below_utilization_percent p.warning_utilization_percent
      && ltb p.warning_utilization_percent p.stop_assignment_utilization_percent
      && ltb p.stop_assignment_utilization_percent p.critical_utilization_percent)
    && ltb p.disk_stop_free_percent p.disk_warning_free_percent
    && (leb p.planned_drain_minimum_seconds p.planned_drain_default_seconds
        && leb p.planned_drain_default_seconds p.planned_drain_maximum_seconds)
    && ltb p.promotion_target_seconds p.promotion_hard_timeout_seconds

-- `capacityPolicyConfigSchema.parse(config)`
unfoldable pub parse_capacity_policy : Option CapacityPolicyConfig → Option CapacityPolicyConfig
parse_capacity_policy none = none
parse_capacity_policy (some p) =
    if capacity_durations_valid p && capacity_percents_valid p && capacity_thresholds_valid p
    then some p
    else none
