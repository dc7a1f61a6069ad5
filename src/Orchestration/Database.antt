-- ===== src/Orchestration/Database.antt =====
-- The rows of the database that the node-sync store and the node life cycle work on: the models
-- Node, NodeAccessGrant, EndpointConnectionProfile and NodeSyncJob, with the columns they use.
use vpnplatform.Base.{ℕ, Option, List}
use vpnplatform.Access.{NodeStatus, GrantStatus}

pub record NodeRow : Type 0 where
  pub id : ℕ
  pub status : NodeStatus
  pub desired_config_version : ℕ
  pub applied_config_version : ℕ

pub record GrantRow : Type 0 where
  pub id : ℕ
  pub node_id : ℕ
  pub device_id : ℕ
  pub status : GrantStatus
  pub expires_at : ℕ
  pub desired_version : ℕ
  pub applied_version : ℕ
  pub revoked_at : Option ℕ

pub record RouteRow : Type 0 where
  pub endpoint_id : ℕ
  pub connection_profile_id : ℕ
  pub node_id : ℕ
  pub activation_version : Option ℕ
  pub last_activation_version : ℕ

pub data SyncStatus : Type 0 where
  pending processing succeeded failed : SyncStatus

pub data SyncErrorCode : Type 0 where
  node_sync_lease_expired node_sync_processing_failed route_activation_closed : SyncErrorCode

pub record NodeSyncJob : Type 0 where
  pub id : ℕ
  pub node_id : ℕ
  pub node_access_grant_id : Option ℕ
  pub route_endpoint_id : Option ℕ
  pub route_connection_profile_id : Option ℕ
  pub target_version : ℕ
  pub idempotency_key : ℕ
  pub status : SyncStatus
  pub attempts : ℕ
  pub next_attempt_at : Option ℕ
  pub lease_owner : Option ℕ
  pub lease_token : Option ℕ
  pub lease_expires_at : Option ℕ
  pub last_error_code : Option SyncErrorCode
  pub completed_at : Option ℕ
  pub updated_at : ℕ

-- The tables that a node-sync job is joined with.
pub record Config : Type 0 where
  pub nodes : List NodeRow
  pub grants : List GrantRow
  pub routes : List RouteRow
