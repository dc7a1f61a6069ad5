-- ===== src/Orchestration/Subscriptions/NoRevival.antt =====
-- A reconciliation gives new grants to entitled devices only, and revives none.
use vpnplatform.Base.{ℕ, ◌≡◌, ◌⊎◌, In}
use vpnplatform.Orchestration.Database.{GrantRow}
use vpnplatform.Orchestration.Subscriptions.{Store, AccessWorld, is_revoked}
use vpnplatform.Orchestration.Subscriptions.Reconciliation.{ExpectedDevice}
use vpnplatform.Orchestration.Subscriptions.Repair.{new_grant}
use vpnplatform.Orchestration.Subscriptions.Origins.{Expected}

-- A grant of now is one of before: it is revoked exactly if that was, nothing was applied to it,
-- and on other nodes it is the same.
pub record Descends (node : ℕ) (before now : GrantRow) : Type 0 where
  pub same_id : now.id ≡ before.id
  pub same_node : now.node_id ≡ before.node_id
  pub same_device : now.device_id ≡ before.device_id
  pub same_applied : now.applied_version ≡ before.applied_version
  pub same_revocation :
      (is_revoked now.status ≡ is_revoked before.status) × (now.revoked_at ≡ before.revoked_at)
  pub elsewhere : (before.node_id ≡ node) ⊎ (now ≡ before)

-- A grant of before, or a new one for an expected device.
abbrev pub Sourced : AccessWorld → ℕ → Store → GrantRow → Type 0
Sourced w node store g =
    ((before : GrantRow) × In before store.grants × Descends node before g)
    ⊎ ((e : ExpectedDevice) × (version : ℕ) × Expected w.now store e
        × (g ≡ new_grant w node version e))
