-- ===== src/Orchestration/Subscriptions/Repair.antt =====
-- How `reconcileOneNode` of packages/orchestration-store/src/subscription-access-store.ts carries
-- its changes out, and the whole transaction.
use vpnplatform.Base.{
  ℕ, ◌+◌, Bool, true, false, ◌||◌, Option, none, some, List, [], ◌∷◌, ◌==◌, filter, collect, length,
  if◌then◌else◌,
}
use vpnplatform.Base.Sort.{sort_by}
use vpnplatform.Access.{GrantStatus, NodeStatus, healthy}
use vpnplatform.Orchestration.Table.{update_where}
use vpnplatform.Orchestration.Database.{NodeRow, GrantRow}
use vpnplatform.Orchestration.Subscriptions.{
  node_access_reconciled, Store, Keys, AccessWorld, next_version, increment_node_version,
  create_node_sync_operation, add_audit,
}
use vpnplatform.Orchestration.Subscriptions.Expiry.{deliverable_node}
use vpnplatform.Orchestration.Subscriptions.Reconciliation.{
  ExpectedDevice, NetworkChange, create, update, repair_revoke, expected_devices, existing_grants,
  live_versions, awaits_activation, network_changes, local_activation,
}

abbrev pub activate : GrantRow → GrantRow
activate g = record g { status = GrantStatus.active }

abbrev pub with_id : ℕ → GrantRow → Bool
with_id id g = g.id == id

abbrev pub activate_each : List GrantRow → List GrantRow → List GrantRow
activate_each [] grants = grants
activate_each (g ∷ rest) grants = activate_each rest (update_where (with_id g.id) activate grants)

abbrev pub change_grant_id : AccessWorld → NetworkChange → ℕ
change_grant_id w (create expected) = w.grant_id expected.device_id
change_grant_id w (update g _) = g.id
change_grant_id w (repair_revoke g) = g.id

abbrev pub retarget : ℕ → GrantRow → GrantRow
retarget version g = record g { desired_version = version }

abbrev pub redate : GrantRow → ℕ → ℕ → GrantRow → GrantRow
redate read at version g = record g {
  status = if awaits_activation read then GrantStatus.active else g.status;
  expires_at = at;
  desired_version = version;
}

-- The credential of the new grant is not modelled.
abbrev pub new_grant : AccessWorld → ℕ → ℕ → ExpectedDevice → GrantRow
new_grant w node version expected = record {
  id = w.grant_id expected.device_id;
  node_id = node;
  device_id = expected.device_id;
  status = GrantStatus.pending;
  expires_at = expected.expires_at;
  desired_version = version;
  applied_version = 0;
  revoked_at = none;
}

abbrev pub apply_change : AccessWorld → ℕ → ℕ → NetworkChange → List GrantRow → List GrantRow
apply_change w node version (create expected) grants = new_grant w node version expected ∷ grants
apply_change w node version (update g at) grants =
    update_where (with_id g.id) (redate g at version) grants
apply_change w node version (repair_revoke g) grants =
    update_where (with_id g.id) (retarget version) grants

abbrev pub apply_changes : AccessWorld → ℕ → ℕ → List NetworkChange → List GrantRow → List GrantRow
apply_changes w node version [] grants = grants
apply_changes w node version (c ∷ changes) grants =
    apply_changes w node version changes (apply_change w node version c grants)

abbrev pub is_repair : NetworkChange → Bool
is_repair (repair_revoke _) = true
is_repair _ = false

-- What follows the two loops.
abbrev pub commit_changes :
    Keys → AccessWorld → NodeRow → List NetworkChange → List GrantRow → Store → Bool × Store
commit_changes keys w n [] [] store = (false, store)
commit_changes keys w n [] (g ∷ locals) store = (
  true,
  add_audit (node_access_reconciled n.id none (length (g ∷ locals)) 0 (length (g ∷ locals)))
      (record store { grants = activate_each (g ∷ locals) store.grants }),
)
commit_changes keys w n (c ∷ changes) locals store =
    let version = next_version n in
    let all_changes = c ∷ changes in
    (
      true,
      add_audit
          (node_access_reconciled n.id (some version) (length all_changes + length locals)
            (length (filter is_repair all_changes)) (length locals))
          (create_node_sync_operation w
            (record {
              node_id = n.id;
              lead_grant_id = change_grant_id w c;
              target_version = version;
              sync_job_idempotency_key = keys.reconcile_job n.id version;
              outbox_event_idempotency_key = keys.reconcile_event n.id version;
            })
            (increment_node_version n (record store {
              grants = apply_changes w n.id version all_changes (activate_each locals store.grants);
            }))),
    )

abbrev pub is_healthy : NodeStatus → Bool
is_healthy healthy = true
is_healthy _ = false

abbrev pub reconcile_locked : Keys → AccessWorld → Bool → Option NodeRow → Store → Bool × Store
reconcile_locked keys w include_missing none store = (false, store)
reconcile_locked keys w include_missing (some n) store =
    let grants = existing_grants n.id store in
    let expected = expected_devices w.now store in
    commit_changes keys w n
      (network_changes (is_healthy n.status || include_missing) (live_versions n.id store) grants
        expected)
      (collect (local_activation grants) expected) store

unfoldable pub reconcile_one_node : Keys → AccessWorld → ℕ → Bool → Store → Bool × Store
unfolding sort_by
reconcile_one_node keys w node include_missing store =
    reconcile_locked keys w include_missing (deliverable_node node store) store
