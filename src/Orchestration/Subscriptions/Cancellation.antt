-- ===== src/Orchestration/Subscriptions/Cancellation.antt =====
-- `cancelSubscriptionAccess` of packages/orchestration-store/src/subscription-access-store.ts.
use vpnplatform.Base.{
  ℕ, Bool, true, false, ◌&&◌, ◌||◌, Option, none, some, List, [], ◌∷◌, ltb, ◌==◌, filter, any,
  length, if◌then◌else◌,
}
use vpnplatform.Base.Sort.{sort_by}
use vpnplatform.Access.{SubscriptionStatus, GrantStatus}
use vpnplatform.Orchestration.Database.{NodeRow, GrantRow}
use vpnplatform.Orchestration.Subscriptions.{
  SubscriptionRow, cancellation_access_revoked, subscription_cancelled, Store, Keys, AccessWorld,
  requires_delivery, entitled_at, is_user_live, subscription_by_id, node_before, next_version,
  increment_node_version, update_grants, update_subscription, create_node_sync_operation, add_audit,
}

pub data CancelResult : Type 0 where
  cancelled already_cancelled not_found : CancelResult

abbrev pub is_cancelled : SubscriptionStatus → Bool
is_cancelled SubscriptionStatus.cancelled = true
is_cancelled _ = false

-- The nodes with a live grant of the user, by id.
abbrev pub cancellation_nodes : ℕ → Store → List NodeRow
cancellation_nodes user store = sort_by node_before (
    filter
      (λ (n : NodeRow).
        any (λ (g : GrantRow). (g.node_id == n.id) && is_user_live user store.devices g)
          store.grants)
      store.nodes)

abbrev pub grant_order : GrantRow → GrantRow → Bool
grant_order left right =
    ltb left.node_id right.node_id || ((left.node_id == right.node_id) && ltb left.id right.id)

abbrev pub cancellation_grants : ℕ → Store → List GrantRow
cancellation_grants user store =
    sort_by grant_order (filter (is_user_live user store.devices) store.grants)

abbrev pub revoke_grant : ℕ → GrantRow → GrantRow
revoke_grant now g = record g { status = GrantStatus.revoked; revoked_at = some now }

abbrev pub revoke_grant_at : ℕ → ℕ → GrantRow → GrantRow
revoke_grant_at now version g = record g {
  status = GrantStatus.revoked;
  revoked_at = some now;
  desired_version = version;
}

-- One round of the loop over the nodes, with the node's grants.
abbrev pub cancel_on_node :
    Keys → AccessWorld → SubscriptionRow → NodeRow → List GrantRow → Store → Store
cancel_on_node keys w s node [] store = store
cancel_on_node keys w s node (lead ∷ rest) store =
    let version = next_version node in
    if requires_delivery node.status
    then add_audit (cancellation_access_revoked s.id node.id (some version) (length (lead ∷ rest)))
        (create_node_sync_operation w
          (record {
            node_id = node.id;
            lead_grant_id = lead.id;
            target_version = version;
            sync_job_idempotency_key = keys.cancel_job s.id node.id version;
            outbox_event_idempotency_key = keys.cancel_event s.id node.id version;
          })
          (update_grants (lead ∷ rest) (revoke_grant_at w.now version)
            (increment_node_version node store)))
    else add_audit (cancellation_access_revoked s.id node.id none (length (lead ∷ rest)))
        (update_grants (lead ∷ rest) (revoke_grant w.now) store)

abbrev pub cancel_on_nodes :
    Keys → AccessWorld → SubscriptionRow → List GrantRow → List NodeRow → Store → Store
cancel_on_nodes keys w s grants [] store = store
cancel_on_nodes keys w s grants (n ∷ nodes) store =
    cancel_on_nodes keys w s grants nodes
      (cancel_on_node keys w s n (filter (λ (g : GrantRow). g.node_id == n.id) grants) store)

abbrev pub mark_cancelled : ℕ → SubscriptionRow → SubscriptionRow
mark_cancelled now s = record s { status = SubscriptionStatus.cancelled; cancelled_at = some now }

abbrev pub cancel_rows :
    Keys → AccessWorld → SubscriptionRow → List NodeRow → List GrantRow → Store → Store
cancel_rows keys w s nodes grants store =
    add_audit (subscription_cancelled s.id w.now (length grants)) (
      cancel_on_nodes keys w s grants nodes (update_subscription s.id (mark_cancelled w.now) store))

-- A subscription that gave no entitlement leaves the grants alone.
abbrev pub cancel_found : Keys → AccessWorld → SubscriptionRow → Store → CancelResult × Store
cancel_found keys w s store =
    if is_cancelled s.status
    then (already_cancelled, store)
    else if entitled_at w.now s
    then (
      cancelled,
      cancel_rows keys w s (cancellation_nodes s.user_id store)
          (cancellation_grants s.user_id store) store,
    )
    else (cancelled, cancel_rows keys w s [] [] store)

abbrev pub cancel_locked :
    Keys → AccessWorld → Option SubscriptionRow → Store → CancelResult × Store
cancel_locked keys w none store = (not_found, store)
cancel_locked keys w (some s) store = cancel_found keys w s store

unfoldable pub cancel_subscription_access : Keys → AccessWorld → ℕ → Store → CancelResult × Store
unfolding sort_by
cancel_subscription_access keys w id store =
    cancel_locked keys w (subscription_by_id id store) store
