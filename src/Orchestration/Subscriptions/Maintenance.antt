-- ===== src/Orchestration/Subscriptions/Maintenance.antt =====
-- The batches `materializeExpiredSubscriptions` and `reconcileAccess` of
-- packages/orchestration-store/src/subscription-access-store.ts, with their queries. Each
-- transaction has its own time and ids. Besides the error that the code throws, a world says in which
-- queries and transactions within the loops the database fails; the query of the candidates does not.
use vpnplatform.Base.{
  ℕ, ◌+◌, Bool, true, false, ◌&&◌, ◌||◌, not, Option, List, [], ◌∷◌, ltb, ◌==◌, map, filter, any,
  if◌then◌else◌,
}
use vpnplatform.Base.Sort.{sort_by}
use vpnplatform.Access.{SubscriptionStatus}
use vpnplatform.Orchestration.Outbox.{due}
use vpnplatform.Orchestration.Database.{NodeRow, GrantRow, NodeSyncJob}
use vpnplatform.Orchestration.Subscriptions.{
  SubscriptionRow, Store, Keys, AccessWorld, Tx, committed, rolled_back, statement_failed,
  requires_delivery, is_user_live,
}
use vpnplatform.Orchestration.Subscriptions.Expiry.{
  is_active, schedule_expired_subscription_on_node, materialize_expired_subscription_status,
}
use vpnplatform.Orchestration.Subscriptions.Repair.{reconcile_one_node}
use vpnplatform.Orchestration.Subscriptions.Selection.{needs_reconciliation}
use vpnplatform.Orchestration.Subscriptions.Paging.{find_candidates}

pub record AccessMaintenanceBatchResult : Type 0 where
  pub processed : ℕ
  pub failed : ℕ

-- The times of a batch's queries, what each of its transactions meets, and which of them throw:
-- the query of a subscription's nodes, the transaction on a node, and that on the status.
pub record MaintenanceWorld : Type 0 where
  pub listed_at : ℕ
  pub nodes_at : ℕ → ℕ
  pub on_node : (subscription node : ℕ) → AccessWorld
  pub stored_at : ℕ → ℕ
  pub listing_throws : (subscription : ℕ) → Bool
  pub scheduling_throws : (subscription node : ℕ) → Bool
  pub storing_throws : (subscription : ℕ) → Bool

abbrev pub is_expired_status : SubscriptionStatus → Bool
is_expired_status SubscriptionStatus.expired = true
is_expired_status _ = false

-- The node takes deliveries, and no job has the key of the subscription's expiry on it.
abbrev pub expiry_pending : Keys → ℕ → Store → NodeRow → Bool
expiry_pending keys subscription store n =
    requires_delivery n.status
    && not (
        any (λ (j : NodeSyncJob). j.idempotency_key == keys.expiry_job subscription n.id)
          store.jobs)

abbrev pub has_live_grant : ℕ → Store → NodeRow → Bool
has_live_grant user store n =
    any (λ (g : GrantRow). (g.node_id == n.id) && is_user_live user store.devices g) store.grants

abbrev pub is_expired_candidate : Keys → ℕ → Store → SubscriptionRow → Bool
is_expired_candidate keys now store s =
    due s.expires_at now
    && (is_active s.status
        || (is_expired_status s.status
            && any (λ n. has_live_grant s.user_id store n && expiry_pending keys s.id store n)
                store.nodes))

abbrev pub subscription_ids : List SubscriptionRow → List ℕ
subscription_ids = map λ s. s.id

unfoldable pub expired_candidates : Keys → ℕ → Store → List ℕ
unfolding sort_by
expired_candidates keys now store =
    sort_by ltb
      (subscription_ids (filter (is_expired_candidate keys now store) store.subscriptions))

abbrev pub node_ids : List NodeRow → List ℕ
node_ids = map λ n. n.id

unfoldable pub find_pending_expiry_nodes : Keys → ℕ → ℕ → Store → List ℕ
unfolding sort_by
find_pending_expiry_nodes keys now subscription store = sort_by ltb (
    node_ids (
      filter
        (λ (n : NodeRow).
          expiry_pending keys subscription store n
          && any
              (λ (s : SubscriptionRow).
                (s.id == subscription) && due s.expires_at now && has_live_grant s.user_id store n)
              store.subscriptions)
        store.nodes))

-- `changed`, `failed` and the database.
pub record CandidateRun : Type 0 where
  pub changed : Bool
  pub failed : ℕ
  pub store : Store

abbrev pub after_schedule : Tx Bool → CandidateRun → CandidateRun
after_schedule (committed scheduled next) run = record run {
  changed = run.changed || scheduled;
  store = next;
}
after_schedule (rolled_back _) run = record run { failed = run.failed + 1 }

-- A transaction in which a statement may fail.
abbrev pub unless_failed : {A : Type 0} → Bool → Tx A → Tx A
unless_failed true tx = rolled_back statement_failed
unless_failed false tx = tx

-- The loop over the nodes; an error of one is counted, and the next one is tried.
abbrev pub schedule_on_nodes : Keys → MaintenanceWorld → ℕ → List ℕ → CandidateRun → CandidateRun
schedule_on_nodes keys w subscription [] run = run
schedule_on_nodes keys w subscription (node ∷ nodes) run =
    schedule_on_nodes keys w subscription nodes (
      after_schedule
        (unless_failed (w.scheduling_throws subscription node) (
          schedule_expired_subscription_on_node keys (w.on_node subscription node) subscription node
            run.store))
        run)

pub record BatchRun : Type 0 where
  pub result : AccessMaintenanceBatchResult
  pub store : Store

abbrev pub count_changed : Bool → ℕ → ℕ
count_changed changed n = if changed then n + 1 else n

abbrev pub schedule_candidate : Keys → MaintenanceWorld → ℕ → Store → CandidateRun
schedule_candidate keys w subscription store =
    schedule_on_nodes keys w subscription
      (find_pending_expiry_nodes keys (w.nodes_at subscription) subscription store)
      (record { changed = false; failed = 0; store = store })

abbrev pub finish_candidate : Bool → (failed : ℕ) → Store → BatchRun → BatchRun
finish_candidate changed failed store run = record {
  result = record {
    processed = count_changed changed run.result.processed;
    failed = run.result.failed + failed;
  };
  store = store;
}

-- The transaction on the status, and the outer `catch`.
abbrev pub store_candidate : MaintenanceWorld → ℕ → CandidateRun → BatchRun → BatchRun
store_candidate w subscription scheduled run =
    let stored =
      materialize_expired_subscription_status (w.stored_at subscription) subscription
        scheduled.store in
    if w.storing_throws subscription
    then finish_candidate scheduled.changed (scheduled.failed + 1) scheduled.store run
    else finish_candidate (scheduled.changed || stored.0) scheduled.failed stored.1 run

-- The body of the loop over the candidates.
abbrev pub materialize_candidate : Keys → MaintenanceWorld → ℕ → BatchRun → BatchRun
materialize_candidate keys w subscription run =
    if w.listing_throws subscription
    then finish_candidate false 1 run.store run
    else store_candidate w subscription (schedule_candidate keys w subscription run.store) run

abbrev pub materialize_each : Keys → MaintenanceWorld → List ℕ → BatchRun → BatchRun
materialize_each keys w [] run = run
materialize_each keys w (subscription ∷ rest) run =
    materialize_each keys w rest (materialize_candidate keys w subscription run)

abbrev pub no_work : Store → BatchRun
no_work store = record { result = record { processed = 0; failed = 0 }; store = store }

-- The batch, and the cursor after it.
unfoldable pub materialize_expired_subscriptions :
    Keys → MaintenanceWorld → ℕ → Option ℕ → Store → BatchRun × Option ℕ
materialize_expired_subscriptions keys w limit cursor store =
    let page = find_candidates limit cursor (expired_candidates keys w.listed_at store) in
    (materialize_each keys w page.0 (no_work store), page.1)

unfoldable pub reconciliation_candidates : ℕ → Store → List ℕ
unfolding sort_by
reconciliation_candidates now store =
    sort_by ltb (node_ids (filter (needs_reconciliation now store) store.nodes))

-- One round; `throws` says whether a statement of its transaction fails.
abbrev pub reconcile_candidate : Keys → AccessWorld → (throws : Bool) → ℕ → BatchRun → BatchRun
reconcile_candidate keys w true node run = finish_candidate false 1 run.store run
reconcile_candidate keys w false node run =
    let done = reconcile_one_node keys w node false run.store in
    finish_candidate done.0 0 done.1 run

abbrev pub reconcile_each :
    Keys → (ℕ → AccessWorld) → (throws : ℕ → Bool) → List ℕ → BatchRun → BatchRun
reconcile_each keys w throws [] run = run
reconcile_each keys w throws (node ∷ nodes) run =
    reconcile_each keys w throws nodes (reconcile_candidate keys (w node) (throws node) node run)

unfoldable pub reconcile_access :
    Keys
    → (listed_at : ℕ) → (ℕ → AccessWorld)
    → (throws : ℕ → Bool) → (limit : ℕ) → (cursor : Option ℕ) → Store
    → BatchRun × Option ℕ
reconcile_access keys listed_at w throws limit cursor store =
    let page = find_candidates limit cursor (reconciliation_candidates listed_at store) in
    (reconcile_each keys w throws page.0 (no_work store), page.1)
