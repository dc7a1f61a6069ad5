-- ===== src/Examples/NodeAgent.antt =====
-- Snapshots, enforcement deadlines and cycle delays of apps/node-agent at concrete inputs: one
-- grant is live, one has expired and one is revoked.
use vpnplatform.Base.{
  true, false, ◌+◌, ◌≤◌, ◌<◌, ◌≡◌, ◌≢◌, ◌↔◌, ◌⊎◌, refl, inl, inr, none, some, [], ◌∷◌, arith, In,
}
use vpnplatform.Access.{GrantStatus}
use vpnplatform.NodeAgent.Snapshot.{Acknowledgement, Grant, Snapshot, snapshot_valid}
use vpnplatform.NodeAgent.Cycle.{
  AgentWorld, heartbeat, configuration, apply, acknowledge, run_cycle, run_cycle-acknowledge,
}
use vpnplatform.NodeAgent.XrayAccess.{
  XrayClient, active_grant_expiry, live_expiry, client_of, select_servable_xray_clients,
  find_next_xray_client_expiry, expired_deadline, find_expired_xray_client_enforcement_deadline,
  RevocationEnforcement, find_revoked_xray_client_enforcements, revoked_enforcement,
}
use vpnplatform.NodeAgent.XrayAccess.Clients.{Serves, Before, In-select_servable_xray_clients}
use vpnplatform.NodeAgent.Timing.{
  xray, synchronized, waiting_for_command, effective_control_plane_poll_interval,
  effective_control_plane_retry_interval, successful_control_plane_cycle_delay,
  production_xray_max_poll_interval_ms, local_security_retry_delay_ms, xray_apply_max_duration_ms,
  xray_fail_closed_max_duration_ms, local_fail_closed_reserve_ms, access_control_enforcement_sla_ms,
  production_cycle_delay,
}

abbrev live : Grant
live = record {
  id = 1;
  status = GrantStatus.active;
  expires_at = some 500;
  desired_version = 2;
  applied_version = 2;
  revoked_at = none;
  data_plane_credential = some 77;
}

abbrev expired : Grant
expired = record live { id = 2; expires_at = some 100 }

abbrev revoked : Grant
revoked = record live { id = 1; status = GrantStatus.revoked; revoked_at = some (some 200) }

abbrev snapshot : Snapshot
snapshot = record {
  desired_config_version = 2;
  applied_config_version = 2;
  pending_acknowledgement = none;
  grants = live ∷ expired ∷ [];
  routes = [];
}

abbrev next : Snapshot
next = record snapshot { grants = revoked ∷ expired ∷ [] }

abbrev client : XrayClient
client = record { grant_id = 1; credential = 77 }

served : select_servable_xray_clients snapshot 150 ≡ client ∷ []
unfolding select_servable_xray_clients client_of
served = refl

In-select_servable_xray_clients_example :
    In client (select_servable_xray_clients snapshot 150)
    ↔ ((grant : Grant) × In grant snapshot.grants × Serves grant 150 client)
In-select_servable_xray_clients_example = In-select_servable_xray_clients snapshot 150 client

Before-next : Before 499 (find_next_xray_client_expiry snapshot 150)
unfolding find_next_xray_client_expiry live_expiry
Before-next = omega arith

deadline : find_expired_xray_client_enforcement_deadline snapshot 150 300 ≡ some 400
unfolding find_expired_xray_client_enforcement_deadline expired_deadline active_grant_expiry
deadline = refl

expired_at : active_grant_expiry expired ≡ some 100
unfolding active_grant_expiry
expired_at = refl

abbrev enforcement : RevocationEnforcement
enforcement = record { grant_id = 1; deadline_at = some 500 }

enforced : find_revoked_xray_client_enforcements snapshot next 250 300 ≡ enforcement ∷ []
unfolding find_revoked_xray_client_enforcements revoked_enforcement
enforced = refl

production_cycle_delay_example :
    let poll = effective_control_plane_poll_interval xray 300_000 in
    let retry = effective_control_plane_retry_interval xray poll in
    let wait = successful_control_plane_cycle_delay synchronized poll retry in
    (wait ≤ production_xray_max_poll_interval_ms)
    × (wait ≤ 300_000)
    × ((synchronized ≢ waiting_for_command) ⊎ (wait ≤ local_security_retry_delay_ms))
    × (wait + xray_apply_max_duration_ms + xray_fail_closed_max_duration_ms
          + local_fail_closed_reserve_ms
        ≤ access_control_enforcement_sla_ms)
production_cycle_delay_example = production_cycle_delay synchronized 300_000

abbrev asked : Acknowledgement
asked = record { node_sync_job_id = 6; target_version = 3; snapshot_hash = 12 }

abbrev pending_snapshot : Snapshot
pending_snapshot = record snapshot {
  desired_config_version = 3;
  pending_acknowledgement = some asked;
}

abbrev agent_world : AgentWorld
agent_world = record {
  throws = λ call. false;
  snapshot = pending_snapshot;
  can_enforce = true;
  can_reconcile = true;
}

pending_valid : snapshot_valid pending_snapshot ≡ true
unfolding snapshot_valid
pending_valid = refl

asked_called : In (acknowledge asked) (run_cycle agent_world).calls
unfolding run_cycle
asked_called = inr (inr (inr (inl refl)))

run_cycle-acknowledge_example :
    ((run_cycle agent_world).calls
      ≡ heartbeat ∷ configuration ∷ apply pending_snapshot ∷ acknowledge asked ∷ [])
    × (agent_world.throws (apply pending_snapshot) ≡ false)
    × (pending_snapshot.pending_acknowledgement ≡ some asked)
    × (asked.target_version ≡ pending_snapshot.desired_config_version)
    × (2 < 3)
run_cycle-acknowledge_example = run_cycle-acknowledge agent_world asked pending_valid asked_called
