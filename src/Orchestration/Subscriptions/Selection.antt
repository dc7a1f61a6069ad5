-- ===== src/Orchestration/Subscriptions/Selection.antt =====
-- Which nodes the query of packages/orchestration-store/src/subscription-access-store.ts selects
-- for a reconciliation.
use vpnplatform.Base.{ℕ, Bool, false, ◌&&◌, ◌||◌, not, Option, none, some, ltb, ◌==◌, any}
use vpnplatform.Base.Sort.{sort_by}
use vpnplatform.Orchestration.Database.{NodeRow, GrantRow, NodeSyncJob}
use vpnplatform.Orchestration.Subscriptions.{DeviceRow, Store, is_revoked, requires_delivery}
use vpnplatform.Orchestration.Subscriptions.Reconciliation.{
  ExpectedDevice, expected_device, delivers_by, awaits_activation,
}
use vpnplatform.Orchestration.Subscriptions.Repair.{is_healthy}

-- No job that is still to be delivered has the version of the grant as its target.
abbrev pub query_lost : ℕ → Store → GrantRow → Bool
query_lost node store g =
    ltb g.applied_version g.desired_version
    && not (
        any
          (λ (j : NodeSyncJob).
            (j.node_id == node)
            && (j.target_version == g.desired_version)
            && delivers_by j.status j store)
          store.jobs)

abbrev pub joined : ℕ → ℕ → GrantRow → Bool
joined node device g = (g.node_id == node) && (g.device_id == device)

abbrev pub joined_needs : ℕ → ℕ → Store → GrantRow → Bool
joined_needs node at store g =
    not (is_revoked g.status)
    && (not (g.expires_at == at) || awaits_activation g || query_lost node store g)

abbrev pub expected_needs : NodeRow → Store → Option ExpectedDevice → Bool
expected_needs n store none = false
expected_needs n store (some e) =
    (is_healthy n.status && not (any (joined n.id e.device_id) store.grants))
    || any (λ (g : GrantRow). joined n.id e.device_id g && joined_needs n.id e.expires_at store g)
        store.grants

-- The device, joined laterally with the entitlement.
abbrev pub device_needs : ℕ → NodeRow → Store → DeviceRow → Bool
device_needs now n store d = expected_needs n store (expected_device now store d)

abbrev pub revoked_needs : ℕ → Store → GrantRow → Bool
revoked_needs node store g = (g.node_id == node) && is_revoked g.status && query_lost node store g

unfoldable pub needs_reconciliation : ℕ → Store → NodeRow → Bool
unfolding sort_by
needs_reconciliation now store n =
    requires_delivery n.status
    && (any (device_needs now n store) store.devices || any (revoked_needs n.id store) store.grants)
