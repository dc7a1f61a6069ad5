-- ===== src/Orchestration/Subscriptions/Reconciliation.antt =====
-- What `reconcileOneNode` of packages/orchestration-store/src/subscription-access-store.ts reads
-- of a node, and the changes that it decides on. A node has one grant for a device, so the map of
-- the changes by device holds each change that is set.
use vpnplatform.Base.{
  ℕ, Bool, true, false, ◌&&◌, ◌||◌, not, Option, none, some, List, [], ◌∷◌, ◌++◌, map, ltb, leb,
  ◌==◌, filter, any, elem, collect, is_some, if◌then◌else◌,
}
use vpnplatform.Base.Sort.{sort_by}
use vpnplatform.Access.{DeviceStatus}
use vpnplatform.Orchestration.Outbox.{
  OutboxStatus, Topic, node_sync_requested, other_topic, NodeSyncCommand, grant_command,
  route_command,
}
use vpnplatform.Orchestration.Database.{GrantRow, NodeSyncJob, SyncStatus}
use vpnplatform.Orchestration.Subscriptions.{
  DeviceRow, DeliveryEvent, Store, is_revoked, is_pending_grant,
}
use vpnplatform.Orchestration.Subscriptions.Expiry.{find_effective_expiry}

pub record ExpectedDevice : Type 0 where
  pub device_id : ℕ
  pub expires_at : ℕ

pub data NetworkChange : Type 0 where
  create : (expected : ExpectedDevice) → NetworkChange
  update : (grant : GrantRow) (expires_at : ℕ) → NetworkChange
  repair_revoke : (grant : GrantRow) → NetworkChange

abbrev pub is_active_device : DeviceStatus → Bool
is_active_device DeviceStatus.active = true
is_active_device _ = false

abbrev pub device_before : DeviceRow → DeviceRow → Bool
device_before left right = ltb left.id right.id

abbrev pub entitle : DeviceRow → Option ℕ → Option ExpectedDevice
entitle d none = none
entitle d (some at) = some (record { device_id = d.id; expires_at = at })

-- The device with its user's longest entitlement, if it is ACTIVE and there is one.
abbrev pub expected_device : ℕ → Store → DeviceRow → Option ExpectedDevice
expected_device now store d =
    let entitlement = find_effective_expiry d.user_id now store in
    if is_active_device d.status then entitle d entitlement else none

abbrev pub expected_devices : ℕ → Store → List ExpectedDevice
expected_devices now store =
    collect (expected_device now store) (sort_by device_before store.devices)

abbrev pub device_order : GrantRow → GrantRow → Bool
device_order left right =
    ltb left.device_id right.device_id
    || ((left.device_id == right.device_id) && ltb left.id right.id)

abbrev pub existing_grants : ℕ → Store → List GrantRow
existing_grants node store =
    sort_by device_order (filter (λ (g : GrantRow). g.node_id == node) store.grants)

abbrev pub payload_job : NodeSyncCommand → ℕ
payload_job (grant_command _ job _) = job
payload_job (route_command _ _ job _) = job

abbrev pub is_requested : Topic → Bool
is_requested node_sync_requested = true
is_requested (other_topic _) = false

abbrev pub is_failed : OutboxStatus → Bool
is_failed OutboxStatus.failed = true
is_failed _ = false

abbrev pub announces : ℕ → DeliveryEvent → Bool
announces job e = is_requested e.topic && (payload_job e.payload == job) && not (is_failed e.status)

-- The job has succeeded without an acknowledgement, or is to be run and its event has not failed.
abbrev pub delivers_by : SyncStatus → NodeSyncJob → Store → Bool
delivers_by SyncStatus.succeeded job store = not (elem job.id store.acknowledged)
delivers_by SyncStatus.pending job store = any (announces job.id) store.events
delivers_by SyncStatus.processing job store = any (announces job.id) store.events
delivers_by SyncStatus.failed job store = false

abbrev pub is_live_delivery : ℕ → Store → NodeSyncJob → Bool
is_live_delivery node store job = (job.node_id == node) && delivers_by job.status job store

abbrev pub target_of : NodeSyncJob → ℕ
target_of job = job.target_version

abbrev pub live_versions : ℕ → Store → List ℕ
live_versions node store = map target_of (filter (is_live_delivery node store) store.jobs)

abbrev pub delivery_lost : List ℕ → GrantRow → Bool
delivery_lost versions g =
    ltb g.applied_version g.desired_version && not (elem g.desired_version versions)

-- A grant that is PENDING although its version is applied.
abbrev pub awaits_activation : GrantRow → Bool
awaits_activation g = is_pending_grant g.status && leb g.desired_version g.applied_version

-- `new Map(grants by device).get(device)`: the last one.
abbrev pub grant_of_device : ℕ → List GrantRow → Option GrantRow
grant_of_device device [] = none
grant_of_device device (g ∷ grants) =
    let rest = grant_of_device device grants in
    if is_some rest then rest else if g.device_id == device then some g else none

-- The body of the first loop: what it sets in the map of changes, and in that of activations.
abbrev pub change_of : Bool → List ℕ → ExpectedDevice → Option GrantRow → Option NetworkChange
change_of may_create versions expected none = if may_create then some (create expected) else none
change_of may_create versions expected (some g) =
    if not (is_revoked g.status)
      && (not (g.expires_at == expected.expires_at) || delivery_lost versions g)
    then some (update g expected.expires_at)
    else none

abbrev pub expected_change : Bool → List ℕ → List GrantRow → ExpectedDevice → Option NetworkChange
expected_change may_create versions grants expected =
    change_of may_create versions expected (grant_of_device expected.device_id grants)

abbrev pub activation_of : Option GrantRow → Option GrantRow
activation_of none = none
activation_of (some g) = if awaits_activation g then some g else none

abbrev pub local_activation : List GrantRow → ExpectedDevice → Option GrantRow
local_activation grants expected = activation_of (grant_of_device expected.device_id grants)

-- The body of the second loop.
abbrev pub revoked_change : List ℕ → GrantRow → Option NetworkChange
revoked_change versions g =
    if is_revoked g.status && delivery_lost versions g then some (repair_revoke g) else none

abbrev pub network_changes :
    Bool → List ℕ → List GrantRow → List ExpectedDevice → List NetworkChange
network_changes may_create versions grants expected =
    collect (expected_change may_create versions grants) expected
    ++ collect (revoked_change versions) grants
