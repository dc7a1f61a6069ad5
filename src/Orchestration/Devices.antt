-- ===== src/Orchestration/Devices.antt =====
-- `DeviceAccessRevoker` of apps/api/src/orchestration/device-access-revoker.service.ts, over the
-- tables of the subscriptions' store. Texts of keys are functions of what they name; new ids of
-- jobs and events are given by their grant.
pub mod Turns
pub mod Revoking
use vpnplatform.Base.{
  ℕ, Bool, true, false, ◌&&◌, not, Option, none, some, List, [], ◌∷◌, ◌==◌, filter, find, any,
  length, if◌then◌else◌,
}
use vpnplatform.Base.Sort.{sort_by}
use vpnplatform.Access.{DeviceStatus}
use vpnplatform.Orchestration.Table.{update_where}
use vpnplatform.Orchestration.Database.{NodeRow, GrantRow}
use vpnplatform.Orchestration.Subscriptions.{
  DeviceRow, Store, AccessWorld, is_revoked, requires_delivery, node_before, next_version,
  increment_node_version, create_node_sync_operation,
}
use vpnplatform.Orchestration.Subscriptions.Cancellation.{
  grant_order, revoke_grant, revoke_grant_at,
}

pub data RevokeDeviceAccessResult : Type 0 where
  revoked already_revoked not_found : RevokeDeviceAccessResult

pub record DeviceWorld : Type 0 where
  pub now : ℕ
  pub job_id : (grant : ℕ) → ℕ
  pub event_id : (grant : ℕ) → ℕ
  pub job_key : (device grant version : ℕ) → ℕ
  pub event_key : (grant version : ℕ) → ℕ

-- The audit events of a revocation, and of the assignment of a node.
pub data DeviceAudit : Type 0 where
  grant_revoked : (user grant node : ℕ) (delivery : Option (ℕ × ℕ)) → DeviceAudit
  device_revoked : (user device revoked_grant_count : ℕ) → DeviceAudit
  grant_scheduled : (actor : Option ℕ) (grant node job target_version : ℕ) → DeviceAudit

pub record DeviceStore : Type 0 where
  pub tables : Store
  pub audit : List DeviceAudit

abbrev pub is_device_of : ℕ → ℕ → DeviceRow → Bool
is_device_of user device d = (d.id == device) && (d.user_id == user)

abbrev pub is_revoked_device : DeviceStatus → Bool
is_revoked_device DeviceStatus.revoked = true
is_revoked_device _ = false

abbrev pub is_device_live : ℕ → GrantRow → Bool
is_device_live device g = (g.device_id == device) && not (is_revoked g.status)

abbrev pub locked_nodes : ℕ → Store → List NodeRow
locked_nodes device store = sort_by node_before (
    filter
      (λ (n : NodeRow).
        any (λ (g : GrantRow). (g.node_id == n.id) && is_device_live device g) store.grants)
      store.nodes)

abbrev pub device_grants : ℕ → Store → List GrantRow
device_grants device store = sort_by grant_order (filter (is_device_live device) store.grants)

-- `nodeStatusById.get`
abbrev pub locked_node : ℕ → List NodeRow → Option NodeRow
locked_node id nodes = find (λ (n : NodeRow). n.id == id) nodes

abbrev pub with_grant_id : ℕ → GrantRow → Bool
with_grant_id id g = g.id == id

abbrev pub update_grant : ℕ → (GrantRow → GrantRow) → Store → Store
update_grant id f store = record store { grants = update_where (with_grant_id id) f store.grants }

abbrev pub revoke_locally : DeviceWorld → ℕ → GrantRow → DeviceStore → DeviceStore
revoke_locally w user g store = record {
  tables = update_grant g.id (revoke_grant w.now) store.tables;
  audit = grant_revoked user g.id g.node_id none ∷ store.audit;
}

-- The version that the node has when its turn comes; its row is locked, so it is there.
abbrev pub version_after : ℕ → List NodeRow → ℕ
version_after id [] = 0
version_after id (n ∷ nodes) =
    let rest = version_after id nodes in if n.id == id then next_version n else rest

abbrev pub grant_world : DeviceWorld → GrantRow → AccessWorld
grant_world w g = record {
  now = w.now;
  job_id = λ node. w.job_id g.id;
  event_id = λ node. w.event_id g.id;
  grant_id = λ device. device;
}

abbrev pub revoke_delivered : DeviceWorld → ℕ → ℕ → NodeRow → GrantRow → DeviceStore → DeviceStore
revoke_delivered w user device n g store =
    let version = version_after g.node_id store.tables.nodes in
    record {
      tables =
          create_node_sync_operation (grant_world w g)
            (record {
              node_id = g.node_id;
              lead_grant_id = g.id;
              target_version = version;
              sync_job_idempotency_key = w.job_key device g.id version;
              outbox_event_idempotency_key = w.event_key g.id version;
            })
            (update_grant g.id (revoke_grant_at w.now version)
              (increment_node_version n store.tables));
      audit = grant_revoked user g.id g.node_id (some (w.job_id g.id, version)) ∷ store.audit;
    }

abbrev pub revoke_device_grant :
    DeviceWorld → ℕ → ℕ → Option NodeRow → GrantRow → DeviceStore → DeviceStore
revoke_device_grant w user device none g store = revoke_locally w user g store
revoke_device_grant w user device (some n) g store =
    if requires_delivery n.status
    then revoke_delivered w user device n g store
    else revoke_locally w user g store

abbrev pub revoke_device_grants :
    DeviceWorld → ℕ → ℕ → List NodeRow → List GrantRow → DeviceStore → DeviceStore
revoke_device_grants w user device nodes [] store = store
revoke_device_grants w user device nodes (g ∷ grants) store =
    revoke_device_grants w user device nodes grants
      (revoke_device_grant w user device (locked_node g.node_id nodes) g store)

abbrev pub revoke_device_row : ℕ → DeviceRow → DeviceRow
revoke_device_row now d = record d { status = DeviceStatus.revoked; revoked_at = some now }

abbrev pub update_device : ℕ → ℕ → Store → Store
update_device now device store = record store {
  devices = update_where (λ (d : DeviceRow). d.id == device) (revoke_device_row now) store.devices;
}

abbrev pub revoke_rows : DeviceWorld → ℕ → ℕ → DeviceStore → DeviceStore
revoke_rows w user device store =
    let grants = device_grants device store.tables in
    let next =
      revoke_device_grants w user device (locked_nodes device store.tables) grants
        (record store { tables = update_device w.now device store.tables }) in
    record next { audit = device_revoked user device (length grants) ∷ next.audit }

abbrev pub revoke_found :
    DeviceWorld → ℕ → ℕ → Option DeviceRow → DeviceStore → RevokeDeviceAccessResult × DeviceStore
revoke_found w user device none store = (not_found, store)
revoke_found w user device (some d) store =
    if is_revoked_device d.status
    then (already_revoked, store)
    else (revoked, revoke_rows w user device store)

unfoldable pub revoke_device_access :
    DeviceWorld → ℕ → ℕ → DeviceStore → RevokeDeviceAccessResult × DeviceStore
unfolding sort_by
revoke_device_access w user device store =
    revoke_found w user device (find (is_device_of user device) store.tables.devices) store
