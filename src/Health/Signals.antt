-- ===== src/Health/Signals.antt =====
-- The probe signals of one cycle, and the loop of `aggregateHealthProbeCycle` that accepts or
-- rejects them (packages/orchestration-store/src/health-decision.ts). A Set or Map is a list in
-- order of insertion.
pub mod Tallying
use vpnplatform.Base.{
  if◌then◌else◌, ℕ, ◌+◌, ◌*◌, Bool, ◌&&◌, ◌||◌, not, Option, none, some, List, [], ◌∷◌, ◌++◌, ltb,
  ◌==◌, elem, any,
}
use vpnplatform.Base.Sort.{sort_by}
use vpnplatform.Health.Policy.{RouteFailureClass, HealthPolicyConfig}

pub data ProbeOutcome : Type 0 where
  success failure probe_source_failure : ProbeOutcome

pub record ProbeSignal : Type 0 where
  pub id : ℕ
  pub source_id : ℕ
  pub independence_key : ℕ
  pub cycle_started_at : ℕ
  pub received_at : ℕ
  pub authenticated : Bool
  pub control_healthy : Bool
  pub route_version : ℕ
  pub outcome : ProbeOutcome
  pub failure_class : Option RouteFailureClass

pub data RejectionReason : Type 0 where
  policy_unavailable already_consumed unauthenticated control_unhealthy : RejectionReason
  route_version_mismatch cycle_mismatch outside_freshness_window : RejectionReason
  duplicate_source duplicate_independence_key : RejectionReason

-- The disposition is ACCEPTED where there is no rejection reason.
pub record SignalEvaluation : Type 0 where
  pub signal_id : ℕ
  pub rejection_reason : Option RejectionReason

abbrev pub milliseconds : ℕ → ℕ
milliseconds seconds = seconds * 1_000

-- What a cycle is about: `cycleStartedAt`, `routeVersion` and `consumedSignalIds` of the input.
pub record CycleContext : Type 0 where
  pub cycle_started_at : ℕ
  pub route_version : ℕ
  pub consumed_signal_ids : List ℕ

unfoldable pub signal_rejection_reason :
    HealthPolicyConfig → CycleContext → ProbeSignal → Option RejectionReason
signal_rejection_reason policy cycle signal =
    if elem signal.id cycle.consumed_signal_ids
    then some already_consumed
    else if not signal.authenticated
    then some unauthenticated
    else if not signal.control_healthy
    then some control_unhealthy
    else if not (signal.route_version == cycle.route_version)
    then some route_version_mismatch
    else if not (signal.cycle_started_at == cycle.cycle_started_at)
    then some cycle_mismatch
    else if ltb signal.received_at cycle.cycle_started_at
        || ltb (cycle.cycle_started_at + milliseconds policy.result_freshness_seconds)
            signal.received_at
    then some outside_freshness_window
    else none

-- The Sets and Maps that the loop fills.
pub record Tally : Type 0 where
  pub rejected_signal_ids : List ℕ
  pub seen_signal_ids : List ℕ
  pub seen_source_ids : List ℕ
  pub votes : List ProbeSignal
  pub signal_evaluations : List SignalEvaluation

abbrev pub empty_tally : Tally
empty_tally = record {
  rejected_signal_ids = [];
  seen_signal_ids = [];
  seen_source_ids = [];
  votes = [];
  signal_evaluations = [];
}

-- `set.add(a)`
abbrev pub add : ℕ → List ℕ → List ℕ
add a s = if elem a s then s else s ++ a ∷ []

-- `votes.has(key)`
abbrev pub has_vote : ℕ → List ProbeSignal → Bool
has_vote key votes = any (λ v. key == v.independence_key) votes

abbrev evaluation : ProbeSignal → Option RejectionReason → SignalEvaluation
evaluation signal reason = record { signal_id = signal.id; rejection_reason = reason }

reject : Tally → ProbeSignal → RejectionReason → Tally
reject t signal reason = record t {
  rejected_signal_ids = add signal.id t.rejected_signal_ids;
  signal_evaluations = t.signal_evaluations ++ evaluation signal (some reason) ∷ [];
}

accept : Tally → ProbeSignal → Tally
accept t signal = record t {
  seen_source_ids = add signal.source_id t.seen_source_ids;
  votes = t.votes ++ signal ∷ [];
  signal_evaluations = t.signal_evaluations ++ evaluation signal none ∷ [];
}

-- The body of the loop, for a signal whose id was not seen and the reason found against it.
classify : Tally → ProbeSignal → Option RejectionReason → Tally
unfolding reject accept
classify t signal (some reason) = reject t signal reason
classify t signal none =
    if elem signal.source_id t.seen_source_ids
    then reject t signal duplicate_source
    else if has_vote signal.independence_key t.votes
    then reject t signal duplicate_independence_key
    else accept t signal

unfoldable pub tally_signal : HealthPolicyConfig → CycleContext → Tally → ProbeSignal → Tally
unfolding classify
tally_signal policy cycle t signal =
    if elem signal.id t.seen_signal_ids
    then record t { rejected_signal_ids = add signal.id t.rejected_signal_ids }
    else classify (record t { seen_signal_ids = add signal.id t.seen_signal_ids }) signal
        (signal_rejection_reason policy cycle signal)

unfoldable pub tally_signals : HealthPolicyConfig → CycleContext → Tally → List ProbeSignal → Tally
unfolding tally_signal
tally_signals policy cycle t [] = t
tally_signals policy cycle t (s ∷ ss) =
    tally_signals policy cycle (tally_signal policy cycle t s) ss

-- By arrival, and by id where two arrive together.
abbrev pub arrives_before : ProbeSignal → ProbeSignal → Bool
arrives_before left right =
    ltb left.received_at right.received_at
    || ((left.received_at == right.received_at) && ltb left.id right.id)

abbrev pub ordered_signals : List ProbeSignal → List ProbeSignal
ordered_signals signals = sort_by arrives_before signals

unfoldable pub tally : HealthPolicyConfig → CycleContext → List ProbeSignal → Tally
unfolding tally_signals sort_by
tally policy cycle signals = tally_signals policy cycle empty_tally (ordered_signals signals)
