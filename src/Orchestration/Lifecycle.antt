-- ===== src/Orchestration/Lifecycle.antt =====
-- `NodeLifecycleManager` of apps/api/src/orchestration/node-lifecycle-manager.service.ts and the
-- status tests of apps/api/src/orchestration/node-access-control.ts. A transaction that throws is
-- rolled back. Calls run one after another, so locks have no effect. The trigger that restoring a node
-- meets stands in prisma/migrations/20260815140000_allow_disabled_access_control_sync.
pub mod Isolation
pub mod Transitions
pub mod Quarantine
pub mod Revocation
pub mod Handover
pub mod Calls
use vpnplatform.Base.{ℕ, Bool, Option, none, some, List, ◌∷◌, ◌==◌, ltb, find, if◌then◌else◌}
use vpnplatform.Access.{NodeStatus, healthy, draining, disabled}
use vpnplatform.Orchestration.Table.{update_where}
use vpnplatform.Orchestration.Outbox.{Topic, NodeSyncCommand}
use vpnplatform.Orchestration.Database.{NodeRow, GrantRow, NodeSyncJob}

pub data AggregateType : Type 0 where
  node_access_grant : AggregateType
  other_aggregate : ℕ → AggregateType

-- The columns of OutboxEvent that a quarantine reads and writes.
pub record EventRow : Type 0 where
  pub id : ℕ
  pub topic : Topic
  pub aggregate_type : AggregateType
  pub aggregate_id : ℕ
  pub payload : NodeSyncCommand
  pub idempotency_key : ℕ

pub data AuditAction : Type 0 where
  node_healthy node_draining node_disabled node_quarantined : AuditAction

pub data AuditMetadata : Type 0 where
  previous_status : NodeStatus → AuditMetadata
  revocation :
      (node_sync_job_id : Option ℕ) (target_version revoked_grant_count : ℕ) → AuditMetadata

pub record AuditEvent : Type 0 where
  pub actor_user_id : Option ℕ
  pub action : AuditAction
  pub entity_id : ℕ
  pub metadata : AuditMetadata

pub record Store : Type 0 where
  pub nodes : List NodeRow
  pub grants : List GrantRow
  pub jobs : List NodeSyncJob
  pub events : List EventRow
  pub audit : List AuditEvent

pub data LifecycleError : Type 0 where
  cannot_restore cannot_drain cannot_disable cannot_quarantine key_mismatch unreconciled_node :
      LifecycleError

-- The end of a transaction: its result and the store that it commits, or the error it throws.
pub data Tx (A : Type 0) : Type 0 where
  committed : A → Store → Tx A
  rolled_back : LifecycleError → Tx A

abbrev pub is_node : ℕ → NodeRow → Bool
is_node id node = node.id == id

abbrev pub node_by_id : ℕ → Store → Option NodeRow
node_by_id id store = find (is_node id) store.nodes

abbrev pub with_status : NodeStatus → NodeRow → NodeRow
with_status status node = record node { status = status }

-- `node.update` of the status and `auditEvent.create`.
abbrev pub move_node : NodeStatus → AuditAction → Option ℕ → NodeRow → Store → Tx NodeStatus
move_node status action actor node store = committed status (record store {
  nodes = update_where (is_node node.id) (with_status status) store.nodes;
  audit =
      record {
        actor_user_id = actor;
        action = action;
        entity_id = node.id;
        metadata = previous_status node.status;
      }
      ∷ store.audit;
})

-- The trigger of the table refuses HEALTHY where an access update is pending.
abbrev pub restore_node : Option ℕ → NodeRow → Store → Tx NodeStatus
restore_node actor node store =
    if ltb node.applied_config_version node.desired_config_version
    then rolled_back unreconciled_node
    else move_node healthy node_healthy actor node store

abbrev pub restore_status : NodeStatus → Option ℕ → NodeRow → Store → Tx NodeStatus
restore_status healthy actor node store = committed healthy store
restore_status draining actor node store = restore_node actor node store
restore_status disabled actor node store = restore_node actor node store
restore_status _ actor node store = rolled_back cannot_restore

unfoldable pub restore_healthy : ℕ → Option ℕ → Store → Tx NodeStatus
restore_healthy id actor store = elim (node_by_id id store) [
  | none ↦ rolled_back cannot_restore
  | some node ↦ restore_status node.status actor node store
]

abbrev pub drain_status : NodeStatus → Option ℕ → NodeRow → Store → Tx NodeStatus
drain_status draining actor node store = committed draining store
drain_status healthy actor node store = move_node draining node_draining actor node store
drain_status _ actor node store = rolled_back cannot_drain

unfoldable pub drain : ℕ → Option ℕ → Store → Tx NodeStatus
drain id actor store = elim (node_by_id id store) [
  | none ↦ rolled_back cannot_drain
  | some node ↦ drain_status node.status actor node store
]

abbrev pub disable_status : NodeStatus → Option ℕ → NodeRow → Store → Tx NodeStatus
disable_status disabled actor node store = committed disabled store
disable_status healthy actor node store = move_node disabled node_disabled actor node store
disable_status draining actor node store = move_node disabled node_disabled actor node store
disable_status _ actor node store = rolled_back cannot_disable

unfoldable pub disable : ℕ → Option ℕ → Store → Tx NodeStatus
disable id actor store = elim (node_by_id id store) [
  | none ↦ rolled_back cannot_disable
  | some node ↦ disable_status node.status actor node store
]
