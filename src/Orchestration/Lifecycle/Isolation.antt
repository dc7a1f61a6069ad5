-- ===== src/Orchestration/Lifecycle/Isolation.antt =====
-- `quarantine` of apps/api/src/orchestration/node-lifecycle-manager.service.ts.
use vpnplatform.Base.{
  ℕ, ◌+◌, Bool, true, false, ◌&&◌, not, Option, none, some, List, [], ◌∷◌, ltb, ◌==◌, if◌then◌else◌,
  filter, find, length,
}
use vpnplatform.Base.Sort.{sort_by}
use vpnplatform.Access.{NodeStatus, healthy, draining, disabled, quarantined, GrantStatus, revoked}
use vpnplatform.Orchestration.Table.{update_where}
use vpnplatform.Orchestration.Outbox.{node_sync_requested, other_topic, grant_command}
use vpnplatform.Orchestration.Database.{NodeRow, GrantRow, NodeSyncJob, pending}
use vpnplatform.Orchestration.Lifecycle.{
  EventRow, AuditEvent, node_quarantined, revocation, node_access_grant, other_aggregate, Store, Tx,
  committed, rolled_back, cannot_quarantine, key_mismatch, is_node, node_by_id, with_status,
}

pub record QuarantineNodeInput : Type 0 where
  pub node_id : ℕ
  pub sync_job_idempotency_key : ℕ
  pub outbox_event_idempotency_key : ℕ
  pub actor_user_id : Option ℕ

pub record QuarantineNodeResult : Type 0 where
  pub node_id : ℕ
  pub node_sync_job_id : Option ℕ
  pub outbox_event_id : Option ℕ
  pub target_version : ℕ

-- The clock of the database and the ids that it gives to new rows.
pub record QuarantineWorld : Type 0 where
  pub now : ℕ
  pub job_id : ℕ
  pub event_id : ℕ

abbrev pub is_quarantined : NodeStatus → Bool
is_quarantined quarantined = true
is_quarantined _ = false

abbrev pub is_node_eligible_for_emergency_quarantine : NodeStatus → Bool
is_node_eligible_for_emergency_quarantine healthy = true
is_node_eligible_for_emergency_quarantine draining = true
is_node_eligible_for_emergency_quarantine disabled = true
is_node_eligible_for_emergency_quarantine _ = false

abbrev pub is_revoked : GrantStatus → Bool
is_revoked revoked = true
is_revoked _ = false

abbrev pub is_live_grant_of : ℕ → GrantRow → Bool
is_live_grant_of id grant = grant.node_id == id && not (is_revoked grant.status)

abbrev pub grant_before : GrantRow → GrantRow → Bool
grant_before left right = ltb left.id right.id

abbrev pub live_grants : ℕ → Store → List GrantRow
live_grants id store = sort_by grant_before (filter (is_live_grant_of id) store.grants)

abbrev pub revoke : ℕ → ℕ → GrantRow → GrantRow
revoke now version grant = record grant {
  status = revoked;
  revoked_at = some now;
  desired_version = version;
}

-- The loop over the grants.
abbrev pub revoke_each : ℕ → ℕ → List GrantRow → List GrantRow → List GrantRow
revoke_each now version [] grants = grants
revoke_each now version (grant ∷ rest) grants =
    revoke_each now version rest
      (update_where (λ (g : GrantRow). g.id == grant.id) (revoke now version) grants)

abbrev pub is_grant_event : ℕ → EventRow → Bool
is_grant_event grant event =
    elim event.topic [ node_sync_requested ↦ true | other_topic _ ↦ false ]
    && elim event.aggregate_type [ node_access_grant ↦ true | other_aggregate _ ↦ false ]
    && event.aggregate_id == grant

-- The branch of the idempotency keys, on the job's grant and the status of its node.
abbrev pub replay_grant :
    QuarantineNodeInput
    → Option ℕ
    → Option NodeRow
    → NodeSyncJob
    → EventRow
    → Store
    → Tx QuarantineNodeResult
replay_grant input none _ job event store = rolled_back key_mismatch
replay_grant input (some grant) none job event store = rolled_back key_mismatch
replay_grant input (some grant) (some row) job event store =
    if job.node_id == input.node_id && is_quarantined row.status && is_grant_event grant event
    then committed
        (record {
          node_id = job.node_id;
          node_sync_job_id = some job.id;
          outbox_event_id = some event.id;
          target_version = job.target_version;
        })
        store
    else rolled_back key_mismatch

abbrev pub new_job : QuarantineNodeInput → QuarantineWorld → ℕ → ℕ → NodeSyncJob
new_job input w lead version = record {
  id = w.job_id;
  node_id = input.node_id;
  node_access_grant_id = some lead;
  route_endpoint_id = none;
  route_connection_profile_id = none;
  target_version = version;
  idempotency_key = input.sync_job_idempotency_key;
  status = pending;
  attempts = 0;
  next_attempt_at = none;
  lease_owner = none;
  lease_token = none;
  lease_expires_at = none;
  last_error_code = none;
  completed_at = none;
  updated_at = w.now;
}

abbrev pub new_event : QuarantineNodeInput → QuarantineWorld → ℕ → ℕ → EventRow
new_event input w lead version = record {
  id = w.event_id;
  topic = node_sync_requested;
  aggregate_type = node_access_grant;
  aggregate_id = lead;
  payload = grant_command lead w.job_id version;
  idempotency_key = input.outbox_event_idempotency_key;
}

abbrev pub quarantine_audit : QuarantineNodeInput → Option ℕ → ℕ → ℕ → AuditEvent
quarantine_audit input job version count = record {
  actor_user_id = input.actor_user_id;
  action = node_quarantined;
  entity_id = input.node_id;
  metadata = revocation job version count;
}

abbrev pub isolate : NodeRow → NodeRow
isolate node = record node {
  status = quarantined;
  desired_config_version = node.desired_config_version + 1;
}

-- What follows the reading of the live grants: the increment, the revocations, the job and its
-- event if there are any, then the status and the audit event.
abbrev pub revoke_all :
    QuarantineNodeInput
    → QuarantineWorld
    → NodeRow
    → List GrantRow
    → Store
    → Tx QuarantineNodeResult
revoke_all input w node [] store =
    committed
      (record {
        node_id = input.node_id;
        node_sync_job_id = none;
        outbox_event_id = none;
        target_version = node.desired_config_version;
      })
      (record store {
        nodes = update_where (is_node input.node_id) (with_status quarantined) store.nodes;
        audit = quarantine_audit input none node.desired_config_version 0 ∷ store.audit;
      })
revoke_all input w node (lead ∷ rest) store =
    let version = node.desired_config_version + 1 in
    committed
      (record {
        node_id = input.node_id;
        node_sync_job_id = some w.job_id;
        outbox_event_id = some w.event_id;
        target_version = version;
      })
      (record {
        nodes = update_where (is_node input.node_id) isolate store.nodes;
        grants = revoke_each w.now version (lead ∷ rest) store.grants;
        jobs = new_job input w lead.id version ∷ store.jobs;
        events = new_event input w lead.id version ∷ store.events;
        audit = quarantine_audit input (some w.job_id) version (length (lead ∷ rest)) ∷ store.audit;
      })

-- Neither key is in use.
abbrev pub quarantine_node :
    QuarantineNodeInput → QuarantineWorld → Option NodeRow → Store → Tx QuarantineNodeResult
quarantine_node input w none store = rolled_back cannot_quarantine
quarantine_node input w (some row) store =
    if is_quarantined row.status
    then committed
        (record {
          node_id = row.id;
          node_sync_job_id = none;
          outbox_event_id = none;
          target_version = row.desired_config_version;
        })
        store
    else if is_node_eligible_for_emergency_quarantine row.status
    then revoke_all input w row (live_grants input.node_id store) store
    else rolled_back cannot_quarantine

abbrev pub by_keys :
    QuarantineNodeInput
    → QuarantineWorld
    → Option NodeSyncJob
    → Option EventRow
    → Store
    → Tx QuarantineNodeResult
by_keys input w none none store = quarantine_node input w (node_by_id input.node_id store) store
by_keys input w none (some event) store = rolled_back key_mismatch
by_keys input w (some job) none store = rolled_back key_mismatch
by_keys input w (some job) (some event) store =
    replay_grant input job.node_access_grant_id (node_by_id job.node_id store) job event store

abbrev pub job_by_key : ℕ → Store → Option NodeSyncJob
job_by_key key store = find (λ job. job.idempotency_key == key) store.jobs

abbrev pub event_by_key : ℕ → Store → Option EventRow
event_by_key key store = find (λ event. event.idempotency_key == key) store.events

unfoldable pub quarantine : QuarantineNodeInput → QuarantineWorld → Store → Tx QuarantineNodeResult
unfolding sort_by
quarantine input w store =
    by_keys input w (job_by_key input.sync_job_idempotency_key store)
      (event_by_key input.outbox_event_idempotency_key store) store
