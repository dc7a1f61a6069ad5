-- ===== src/Orchestration/Subscriptions/Origins.antt =====
-- Where the grants come from that a reconciliation leaves.
use vpnplatform.Base.{
  ℕ, ◌≡◌, refl, inl, inr, Bool, true, Option, none, some, List, arith, In, All, All-tabulate,
  collect, subst, Bool-cases, Option-cases, In-collect, In-append, ==→eq,
}
use vpnplatform.Base.Sort.{In-sort_by, sort_by}
use vpnplatform.Access.{DeviceStatus}
use vpnplatform.Orchestration.Database.{GrantRow}
use vpnplatform.Orchestration.Subscriptions.{DeviceRow, Store}
use vpnplatform.Orchestration.Subscriptions.Expiry.{find_effective_expiry}
use vpnplatform.Orchestration.Subscriptions.Expiring.{Replacement, effective_expiry-Replacement}
use vpnplatform.Orchestration.Subscriptions.Reconciliation.{
  ExpectedDevice, NetworkChange, create, update, repair_revoke, expected_device, expected_devices,
  is_active_device, existing_grants, device_before, live_versions, awaits_activation,
  grant_of_device, change_of, activation_of, expected_change, local_activation, revoked_change,
  network_changes,
}
use vpnplatform.Orchestration.Subscriptions.Selecting.{Looked, grant_of_device-Looked, In-existing}

-- A device that is ACTIVE, with the end of its user's longest entitlement.
pub record Expected (now : ℕ) (store : Store) (e : ExpectedDevice) : Type 0 where
  pub device : DeviceRow
  pub there : In device store.devices
  pub named : e.device_id ≡ device.id
  pub active : device.status ≡ DeviceStatus.active
  pub entitled : Replacement device.user_id now e.expires_at store

expected_device-Expected :
    (now : ℕ) (store : Store) (d : DeviceRow) (e : ExpectedDevice)
    → In d store.devices
    → expected_device now store d ≡ some e
    → Expected now store e
expected_device-Expected now store d e i h = elim (Bool-cases (is_active_device d.status)) [
  | inr m ↦ absurd (ground (arith, m, h))
  | inl y ↦ elim (Option-cases (find_effective_expiry d.user_id now store)) [
    | inl gone ↦ absurd (ground (arith, y, h, gone))
    | inr (at, found) ↦
        let one : record { device_id = d.id; expires_at = at } ≡ e = ground (arith, y, h, found) in
        subst (Expected now store) one (record {
          device = d;
          there = i;
          named = refl;
          active = ground arith;
          entitled = effective_expiry-Replacement d.user_id now at store found;
        })
  ]
]

pub In-expected_devices :
    (now : ℕ) (store : Store) (e : ExpectedDevice)
    → In e (expected_devices now store)
    → Expected now store e
In-expected_devices now store e i =
    let (d, j, h) =
      (In-collect (expected_device now store) e (sort_by device_before store.devices)).0 i in
    expected_device-Expected now store d e ((In-sort_by device_before d store.devices).0 j) h

-- What the two loops may put into the list of changes, and into that of activations.
abbrev pub FromStore : ℕ → Store → GrantRow → Type 0
FromStore node store g = In g store.grants × (g.node_id ≡ node)

abbrev pub ChangeOk : ℕ → ℕ → Store → NetworkChange → Type 0
ChangeOk now node store (create e) = Expected now store e
ChangeOk now node store (update g at) = FromStore node store g
ChangeOk now node store (repair_revoke g) = FromStore node store g

abbrev pub LocalOk : ℕ → Store → GrantRow → Type 0
LocalOk node store g = FromStore node store g × (awaits_activation g ≡ true)

change_of-Ok :
    (now node : ℕ) (store : Store) (may : Bool) (versions : List ℕ) (e : ExpectedDevice)
    (o : Option GrantRow) (c : NetworkChange)
    → Expected now store e
    → Looked e.device_id (existing_grants node store) o
    → change_of may versions e o ≡ some c
    → ChangeOk now node store c
unfolding Looked
change_of-Ok now node store may versions e none c ok looked h = ground arith
change_of-Ok now node store may versions e (some g) c ok (i, device) h =
    let (there, named) = In-existing node store g i in ground arith

activation_of-Ok :
    (node device : ℕ) (store : Store) (o : Option GrantRow) (g : GrantRow)
    → Looked device (existing_grants node store) o
    → activation_of o ≡ some g
    → LocalOk node store g
unfolding Looked
activation_of-Ok node device store none g looked h = absurd (cc)
activation_of-Ok node device store (some r) g (i, _) h =
    let (there, named) = In-existing node store r i in ground arith

revoked_change-Ok :
    (now node : ℕ) (store : Store) (versions : List ℕ) (g : GrantRow) (c : NetworkChange)
    → FromStore node store g
    → revoked_change versions g ≡ some c
    → ChangeOk now node store c
revoked_change-Ok now node store versions g c from h = ground arith

pub network_changes-Ok :
    (now node : ℕ) (store : Store) (may : Bool)
    → All (ChangeOk now node store) (
        network_changes may
          (live_versions node store)
          (existing_grants node store)
          (expected_devices now store))
network_changes-Ok now node store may =
    let versions = live_versions node store in
    let grants = existing_grants node store in
    let first = collect (expected_change may versions grants) (expected_devices now store) in
    All-tabulate _ _ (λ c i.
      elim ((In-append c first (collect (revoked_change versions) grants)).0 i) [
        | inl j ↦
            let (e, k, h) =
              (In-collect (expected_change may versions grants) c (expected_devices now store)).0
                j in
            change_of-Ok now node store may versions e (grant_of_device e.device_id grants) c
              (In-expected_devices now store e k) (grant_of_device-Looked e.device_id grants) h
        | inr j ↦
            let (g, k, h) = (In-collect (revoked_change versions) c grants).0 j in
            let (there, named) = In-existing node store g k in
            revoked_change-Ok now node store versions g c (there, ==→eq g.node_id node named) h
      ])

pub local_activations-Ok :
    (now node : ℕ) (store : Store)
    → All
        (LocalOk node store)
        (collect (local_activation (existing_grants node store)) (expected_devices now store))
local_activations-Ok now node store =
    let grants = existing_grants node store in
    All-tabulate _ _ (λ g i.
      let (e, k, h) = (In-collect (local_activation grants) g (expected_devices now store)).0 i in
      activation_of-Ok node e.device_id store (grant_of_device e.device_id grants) g
        (grant_of_device-Looked e.device_id grants) h)
