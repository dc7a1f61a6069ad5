-- ===== src/Orchestration/Subscriptions.antt =====
-- `PrismaSubscriptionAccessStore` of packages/orchestration-store/src/subscription-access-store.ts:
-- the rows that its transactions read and write, and the statements that they share. Transactions
-- run one after another, so locks have no effect, and each reads the clock once. New job keys are
-- unused, so creating a job does not fail.
pub mod Cancellation
pub mod Cancelling
pub mod Expiry
pub mod Expiring
pub mod Repeating
pub mod Unobservable
pub mod Reconciliation
pub mod Repair
pub mod Selection
pub mod Selecting
pub mod Origins
pub mod NoRevival
pub mod Paging
pub mod Maintenance
pub mod Batches
use vpnplatform.Base.{
  ℕ, ◌+◌, Bool, true, false, ◌&&◌, ◌||◌, not, Option, none, some, List, ◌∷◌, ltb, ◌==◌, filter,
  find, any, elem, map, if◌then◌else◌,
}
use vpnplatform.Base.Sort.{sort_by}
use vpnplatform.Access.{
  SubscriptionStatus, DeviceStatus, GrantStatus, NodeStatus, healthy, draining, disabled,
}
use vpnplatform.Orchestration.Table.{update_where}
use vpnplatform.Orchestration.Outbox.{
  OutboxStatus, Topic, node_sync_requested, other_topic, NodeSyncCommand, grant_command,
  route_command,
}
use vpnplatform.Orchestration.Database.{NodeRow, GrantRow, NodeSyncJob, SyncStatus}

pub record SubscriptionRow : Type 0 where
  pub id : ℕ
  pub user_id : ℕ
  pub status : SubscriptionStatus
  pub expires_at : Option ℕ
  pub cancelled_at : Option ℕ

pub record DeviceRow : Type 0 where
  pub id : ℕ
  pub user_id : ℕ
  pub status : DeviceStatus
  pub revoked_at : Option ℕ

pub record DeliveryEvent : Type 0 where
  pub id : ℕ
  pub topic : Topic
  pub aggregate_id : ℕ
  pub payload : NodeSyncCommand
  pub idempotency_key : ℕ
  pub status : OutboxStatus

-- The audit events, with their metadata.
pub data AccessAudit : Type 0 where
  cancellation_access_revoked :
      (subscription node : ℕ) (target_version : Option ℕ) (grant_count : ℕ) → AccessAudit
  subscription_cancelled : (subscription cancelled_at revoked_grant_count : ℕ) → AccessAudit
  expiry_access_scheduled : (subscription node target_version grant_count : ℕ) → AccessAudit
  subscription_expired : (subscription expired_at : ℕ) → AccessAudit
  node_access_reconciled :
      (node : ℕ) (target_version : Option ℕ)
      (repaired_grant_count revoked_grant_count local_activation_count : ℕ)
      → AccessAudit

-- `acknowledged` holds the node-sync jobs of the table NodeConfigAcknowledgement.
pub record Store : Type 0 where
  pub subscriptions : List SubscriptionRow
  pub devices : List DeviceRow
  pub nodes : List NodeRow
  pub grants : List GrantRow
  pub jobs : List NodeSyncJob
  pub events : List DeliveryEvent
  pub acknowledged : List ℕ
  pub audit : List AccessAudit

-- The texts of the idempotency keys, as functions of what they name.
pub record Keys : Type 0 where
  pub expiry_job : (subscription node : ℕ) → ℕ
  pub expiry_event : (subscription node : ℕ) → ℕ
  pub cancel_job : (subscription node version : ℕ) → ℕ
  pub cancel_event : (subscription node version : ℕ) → ℕ
  pub reconcile_job : (node version : ℕ) → ℕ
  pub reconcile_event : (node version : ℕ) → ℕ

-- The clock of the database, and the ids of new rows: of jobs and events by their node, of
-- grants by their device.
pub record AccessWorld : Type 0 where
  pub now : ℕ
  pub job_id : ℕ → ℕ
  pub event_id : ℕ → ℕ
  pub grant_id : ℕ → ℕ

pub data AccessError : Type 0 where
  inconsistent_operation statement_failed : AccessError

-- The end of a transaction: its result and the store that it commits, or the error it throws.
pub data Tx (A : Type 0) : Type 0 where
  committed : A → Store → Tx A
  rolled_back : AccessError → Tx A

abbrev pub is_revoked : GrantStatus → Bool
is_revoked GrantStatus.revoked = true
is_revoked _ = false

abbrev pub is_pending_grant : GrantStatus → Bool
is_pending_grant GrantStatus.pending = true
is_pending_grant _ = false

-- HEALTHY, DRAINING or DISABLED: the nodes that configurations are delivered to.
abbrev pub requires_delivery : NodeStatus → Bool
requires_delivery healthy = true
requires_delivery draining = true
requires_delivery disabled = true
requires_delivery _ = false

-- The row is ACTIVE, and expires after the time.
abbrev pub entitled_at : ℕ → SubscriptionRow → Bool
entitled_at now s =
    elim s.status [ SubscriptionStatus.active ↦ true | _ ↦ false ]
    && elim s.expires_at [ none ↦ false | some at ↦ ltb now at ]

-- `INNER JOIN "Device"` with the user of the device.
abbrev pub belongs_to : ℕ → List DeviceRow → ℕ → Bool
belongs_to user devices device =
    any (λ (d : DeviceRow). d.id == device && d.user_id == user) devices

abbrev pub is_user_live : ℕ → List DeviceRow → GrantRow → Bool
is_user_live user devices grant =
    belongs_to user devices grant.device_id && not (is_revoked grant.status)

abbrev pub subscription_by_id : ℕ → Store → Option SubscriptionRow
subscription_by_id id store = find (λ (s : SubscriptionRow). s.id == id) store.subscriptions

abbrev pub node_before : NodeRow → NodeRow → Bool
node_before left right = ltb left.id right.id

abbrev pub bump_version : NodeRow → NodeRow
bump_version node = record node { desired_config_version = node.desired_config_version + 1 }

-- The version that a node read in this transaction gets.
abbrev pub next_version : NodeRow → ℕ
next_version node = node.desired_config_version + 1

abbrev pub increment_node_version : NodeRow → Store → Store
increment_node_version node store = record store {
  nodes = update_where (λ (n : NodeRow). n.id == node.id) bump_version store.nodes;
}

pub record NodeSyncOperation : Type 0 where
  pub node_id : ℕ
  pub lead_grant_id : ℕ
  pub target_version : ℕ
  pub sync_job_idempotency_key : ℕ
  pub outbox_event_idempotency_key : ℕ

abbrev pub operation_job : AccessWorld → NodeSyncOperation → NodeSyncJob
operation_job w input = record {
  id = w.job_id input.node_id;
  node_id = input.node_id;
  node_access_grant_id = some input.lead_grant_id;
  route_endpoint_id = none;
  route_connection_profile_id = none;
  target_version = input.target_version;
  idempotency_key = input.sync_job_idempotency_key;
  status = SyncStatus.pending;
  attempts = 0;
  next_attempt_at = none;
  lease_owner = none;
  lease_token = none;
  lease_expires_at = none;
  last_error_code = none;
  completed_at = none;
  updated_at = w.now;
}

abbrev pub operation_event : AccessWorld → NodeSyncOperation → DeliveryEvent
operation_event w input = record {
  id = w.event_id input.node_id;
  topic = node_sync_requested;
  aggregate_id = input.lead_grant_id;
  payload = grant_command input.lead_grant_id (w.job_id input.node_id) input.target_version;
  idempotency_key = input.outbox_event_idempotency_key;
  status = OutboxStatus.pending;
}

abbrev pub create_node_sync_operation : AccessWorld → NodeSyncOperation → Store → Store
create_node_sync_operation w input store = record store {
  jobs = operation_job w input ∷ store.jobs;
  events = operation_event w input ∷ store.events;
}

abbrev pub add_audit : AccessAudit → Store → Store
add_audit entry store = record store { audit = entry ∷ store.audit }

abbrev pub id_of : GrantRow → ℕ
id_of g = g.id

-- `updateMany` of the grants whose ids are listed.
abbrev pub update_grants : List GrantRow → (GrantRow → GrantRow) → Store → Store
update_grants found f store = record store {
  grants = update_where (λ (g : GrantRow). elem g.id (map id_of found)) f store.grants;
}

abbrev pub update_subscription : ℕ → (SubscriptionRow → SubscriptionRow) → Store → Store
update_subscription id f store = record store {
  subscriptions = update_where (λ (s : SubscriptionRow). s.id == id) f store.subscriptions;
}
