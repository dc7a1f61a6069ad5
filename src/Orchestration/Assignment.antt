-- ===== src/Orchestration/Assignment.antt =====
-- `NodeAccessGrantScheduler` of apps/api/src/orchestration/node-access-grant-scheduler.service.ts,
-- over the tables of the subscriptions' store. The credential of the new grant is not modelled,
-- only whether there is a provider of credentials.
pub mod Assigning
use vpnplatform.Base.{
  ℕ, Bool, true, false, ◌&&◌, ◌||◌, Option, none, some, ◌∷◌, ◌==◌, find, any, if◌then◌else◌,
}
use vpnplatform.Base.Any.{option_any}
use vpnplatform.Access.{GrantStatus}
use vpnplatform.Orchestration.Database.{NodeRow, GrantRow, NodeSyncJob}
use vpnplatform.Orchestration.Subscriptions.{
  DeviceRow, DeliveryEvent, AccessWorld, Store, next_version, increment_node_version,
  create_node_sync_operation,
}
use vpnplatform.Orchestration.Subscriptions.Expiry.{job_by_key, event_by_key}
use vpnplatform.Orchestration.Subscriptions.Reconciliation.{is_active_device}
use vpnplatform.Orchestration.Subscriptions.Repair.{is_healthy}
use vpnplatform.Orchestration.Devices.{DeviceStore, grant_scheduled, with_grant_id}

pub record ScheduleNodeAccessGrantInput : Type 0 where
  pub node_id : ℕ
  pub device_id : ℕ
  pub expires_at : ℕ
  pub sync_job_idempotency_key : ℕ
  pub outbox_event_idempotency_key : ℕ
  pub actor_user_id : Option ℕ

pub record ScheduleNodeAccessGrantResult : Type 0 where
  pub node_access_grant_id : ℕ
  pub node_sync_job_id : ℕ
  pub outbox_event_id : ℕ
  pub target_version : ℕ

pub record ScheduleWorld : Type 0 where
  pub now : ℕ
  pub grant_id : ℕ
  pub job_id : ℕ
  pub event_id : ℕ
  pub has_credentials : Bool

pub data ScheduleError : Type 0 where
  idempotency_mismatch device_unavailable node_unavailable credentials_unavailable : ScheduleError
  unique_violation : ScheduleError

pub data Scheduled : Type 0 where
  scheduled : ScheduleNodeAccessGrantResult → DeviceStore → Scheduled
  refused : ScheduleError → Scheduled

abbrev pub existing_grant :
    ScheduleNodeAccessGrantInput → NodeSyncJob → DeliveryEvent → Option ℕ → DeviceStore → Scheduled
existing_grant input job event none store = refused idempotency_mismatch
existing_grant input job event (some grant) store =
    if (job.node_id == input.node_id)
      && option_any (λ (g : GrantRow). g.device_id == input.device_id)
          (find (with_grant_id grant) store.tables.grants)
      && (event.aggregate_id == grant)
    then scheduled
        (record {
          node_access_grant_id = grant;
          node_sync_job_id = job.id;
          outbox_event_id = event.id;
          target_version = job.target_version;
        })
        store
    else refused idempotency_mismatch

abbrev pub new_assignment : ScheduleWorld → ScheduleNodeAccessGrantInput → NodeRow → GrantRow
new_assignment w input node = record {
  id = w.grant_id;
  node_id = input.node_id;
  device_id = input.device_id;
  status = GrantStatus.pending;
  expires_at = input.expires_at;
  desired_version = next_version node;
  applied_version = 0;
  revoked_at = none;
}

-- A row with the id, or with the node and the device, is refused by the table's unique keys.
abbrev pub is_taken_by : ScheduleWorld → ScheduleNodeAccessGrantInput → GrantRow → Bool
is_taken_by w input g =
    (g.id == w.grant_id) || ((g.node_id == input.node_id) && (g.device_id == input.device_id))

abbrev pub schedule_world : ScheduleWorld → AccessWorld
schedule_world w = record {
  now = w.now;
  job_id = λ node. w.job_id;
  event_id = λ node. w.event_id;
  grant_id = λ device. w.grant_id;
}

abbrev pub insert_assignment :
    ScheduleWorld → ScheduleNodeAccessGrantInput → NodeRow → Store → Store
insert_assignment w input node store =
    create_node_sync_operation (schedule_world w)
      (record {
        node_id = input.node_id;
        lead_grant_id = w.grant_id;
        target_version = next_version node;
        sync_job_idempotency_key = input.sync_job_idempotency_key;
        outbox_event_idempotency_key = input.outbox_event_idempotency_key;
      })
      (record (increment_node_version node store) {
        grants = new_assignment w input node ∷ store.grants;
      })

abbrev pub assign : ScheduleWorld → ScheduleNodeAccessGrantInput → NodeRow → DeviceStore → Scheduled
assign w input node store =
    if w.has_credentials
    then if any (is_taken_by w input) store.tables.grants
      then refused unique_violation
      else scheduled
          (record {
            node_access_grant_id = w.grant_id;
            node_sync_job_id = w.job_id;
            outbox_event_id = w.event_id;
            target_version = next_version node;
          })
          (record {
            tables = insert_assignment w input node store.tables;
            audit =
                grant_scheduled input.actor_user_id w.grant_id input.node_id w.job_id
                  (next_version node)
                ∷ store.audit;
          })
    else refused credentials_unavailable

abbrev pub assign_to :
    ScheduleWorld → ScheduleNodeAccessGrantInput → Option NodeRow → DeviceStore → Scheduled
assign_to w input none store = refused node_unavailable
assign_to w input (some node) store =
    if is_healthy node.status then assign w input node store else refused node_unavailable

abbrev pub is_assignable : ScheduleNodeAccessGrantInput → DeviceRow → Bool
is_assignable input d = (d.id == input.device_id) && is_active_device d.status

abbrev pub node_by_id : ℕ → Store → Option NodeRow
node_by_id id store = find (λ (n : NodeRow). n.id == id) store.nodes

abbrev pub schedule_by_keys :
    ScheduleWorld
    → ScheduleNodeAccessGrantInput
    → Option NodeSyncJob
    → Option DeliveryEvent
    → DeviceStore
    → Scheduled
schedule_by_keys w input (some job) (some event) store =
    existing_grant input job event job.node_access_grant_id store
schedule_by_keys w input (some job) none store = refused idempotency_mismatch
schedule_by_keys w input none (some event) store = refused idempotency_mismatch
schedule_by_keys w input none none store =
    if any (is_assignable input) store.tables.devices
    then assign_to w input (node_by_id input.node_id store.tables) store
    else refused device_unavailable

unfoldable pub schedule : ScheduleWorld → ScheduleNodeAccessGrantInput → DeviceStore → Scheduled
schedule w input store =
    schedule_by_keys w input (job_by_key input.sync_job_idempotency_key store.tables)
      (event_by_key input.outbox_event_idempotency_key store.tables) store
