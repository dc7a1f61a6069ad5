-- ===== src/Examples/AgentState.antt =====
-- The agent's clock and state file at concrete inputs.
use vpnplatform.Base.{◌≤◌, ◌≡◌, ◌↔◌, ◌⊎◌, refl, ℕ, Bool, true, false, none, some, []}
use vpnplatform.NodeAgent.Snapshot.{Snapshot, snapshot_valid}
use vpnplatform.NodeAgent.ClockTrust.{
  normal, timeout, TrackingFields, Seconds, line, Execution, throws, resolves, an_error, sigterm,
  no_code, assess, is_trusted_reason,
}
use vpnplatform.NodeAgent.ClockTrust.Verdict.{Trusted, assess-Trusted_iff}
use vpnplatform.NodeAgent.StateFile.{
  PersistedState, StateEnvelope, Files, io_error, Codec, Faults, applied, already_applied,
  version_downgrade, state_of, read_error, read_state, apply_snapshot,
}
use vpnplatform.NodeAgent.StateFile.Durability.{Ends, envelope_over, apply_atomic, apply_round_trip}

abbrev millis : ℕ → Seconds
millis n = record { negative = false; nanoseconds = n }

abbrev fields : TrackingFields
fields = record {
  count = 14;
  is_local_reference = false;
  system_time_offset = some (millis 500);
  root_delay = some (millis 2_000_000);
  root_dispersion = some (millis 1_000);
  leap_status = normal;
}

abbrev good_run : Execution
good_run = resolves 0 (line fields)

trusts : (assess good_run).is_trusted ≡ true
unfolding assess
trusts = refl

times_out :
    (assess (
      throws (
        an_error
          (record { killed = false; signal = sigterm; code = no_code; status = none })))).reason
    ≡ timeout
unfolding assess
times_out = refl

assess-Trusted_iff_example :
    ((assess good_run).is_trusted ≡ is_trusted_reason (assess good_run).reason)
    × (((assess good_run).is_trusted ≡ true) ↔ Trusted good_run)
assess-Trusted_iff_example = assess-Trusted_iff good_run

abbrev snapshot : ℕ → Snapshot
snapshot version = record {
  desired_config_version = version;
  applied_config_version = version;
  pending_acknowledgement = none;
  grants = [];
  routes = [];
}

-- The JSON of an envelope is the envelope.
abbrev codec : Codec StateEnvelope
codec = record {
  print = λ e. e;
  parse_json = λ e. some e;
  hash = λ (s : Snapshot). s.desired_config_version;
}

abbrev current : ℕ → PersistedState
current version = record {
  version = version;
  snapshot_hash = version;
  applied_at = 5;
  snapshot = snapshot version;
}

abbrev faults : (rename sync_parent : Bool) → Faults StateEnvelope
faults rename sync_parent = record {
  read = false;
  mkdir = false;
  first_remove = false;
  open_temporary = false;
  write = false;
  partial_text = record { current = current 9; previous = none };
  sync = false;
  close = false;
  rename = rename;
  sync_parent = sync_parent;
  last_remove = false;
  confirm = false;
}

abbrev files : Files StateEnvelope
files = record { state = some (record { current = current 1; previous = none }); temporary = none }

applies : (apply_snapshot codec (faults false false) 7 (snapshot 2) files).result ≡ applied
unfolding apply_snapshot snapshot_valid
applies = refl

rename_fails :
    apply_snapshot codec (faults true false) 7 (snapshot 2) files
    ≡ record { result = io_error; files = files }
unfolding apply_snapshot snapshot_valid
rename_fails = refl

apply_atomic_example :
    Ends codec 7
      (snapshot 2)
      (read_state codec (faults false true) files)
      files
      (apply_snapshot codec (faults false true) 7 (snapshot 2) files)
apply_atomic_example = apply_atomic codec (faults false true) 7 (snapshot 2) files

valid : snapshot_valid (snapshot 2) ≡ true
unfolding snapshot_valid
valid = refl

-- A state file with a snapshot that is applied beyond what is desired is refused.
abbrev broken : PersistedState
broken = record (current 2) { snapshot = record (snapshot 2) { applied_config_version = 3 } }

refuses_broken :
    read_state codec
      (faults false false)
      (record { state = some (record { current = broken; previous = none }); temporary = none })
    ≡ read_error
unfolding snapshot_valid
refuses_broken = refl

apply_round_trip_example :
    let next = (apply_snapshot codec (faults false false) 7 (snapshot 2) files).files in
    (read_state codec (faults false false) next
      ≡ state_of (envelope_over codec 7 (snapshot 2) (read_state codec (faults false false) files)))
    × (apply_snapshot codec (faults false false) 8 (snapshot 2) next
        ≡ record { result = already_applied; files = next })
    × ((2 ≤ 1)
        ⊎ (apply_snapshot codec (faults false false) 8 (snapshot 1) next
            ≡ record { result = version_downgrade; files = next }))
apply_round_trip_example =
    apply_round_trip codec (faults false false) (faults false false) 7 8 (snapshot 2) (snapshot 1)
      files valid refl refl refl applies
