-- ===== src/Examples/Subscriptions.antt =====
-- Subscriptions at concrete inputs: user 1 has the device 4, whose grant 5 is on node 3.
use vpnplatform.Base.{
  ℕ, ◌+◌, ◌*◌, ◌<◌, ◌≡◌, ◌⊎◌, refl, inl, Bool, true, false, none, some, List, [], ◌∷◌, ◌==◌, arith,
  All, In, map,
}
use vpnplatform.Access.{SubscriptionStatus, DeviceStatus, GrantStatus, healthy}
use vpnplatform.Orchestration.Database.{NodeRow, GrantRow}
use vpnplatform.Orchestration.Subscriptions.{
  SubscriptionRow, Store, Keys, AccessWorld, Tx, committed, rolled_back,
}
use vpnplatform.Orchestration.Subscriptions.Cancellation.{
  cancelled, already_cancelled, cancel_subscription_access,
}
use vpnplatform.Orchestration.Subscriptions.Cancelling.{
  Withdrawn, cancel_withdraws_access, cancel_final,
}
use vpnplatform.Orchestration.Subscriptions.Expiry.{
  schedule_expired_subscription_on_node, materialize_expired_subscription_status,
}
use vpnplatform.Orchestration.Subscriptions.Repeating.{schedule_once}
use vpnplatform.Orchestration.Subscriptions.Unobservable.{shown, materialize_unobservable}
use vpnplatform.Orchestration.Subscriptions.Repair.{reconcile_one_node}
use vpnplatform.Orchestration.Subscriptions.Selection.{needs_reconciliation}
use vpnplatform.Orchestration.Subscriptions.Selecting.{selected_iff_reconciled}
use vpnplatform.Orchestration.Subscriptions.Paging.{
  find_candidates, take, rotation, find_candidates-rotation,
}
use vpnplatform.Orchestration.Subscriptions.Maintenance.{
  MaintenanceWorld, find_pending_expiry_nodes, materialize_expired_subscriptions,
  expired_candidates,
}
use vpnplatform.Orchestration.Subscriptions.Batches.{SettledOrCounted, batch-SettledOrCounted}

abbrev keys : Keys
keys = record {
  expiry_job = λ s n. 1000 + 10 * s + n;
  expiry_event = λ s n. 2000 + 10 * s + n;
  cancel_job = λ s n v. 3000 + 100 * s + 10 * n + v;
  cancel_event = λ s n v. 4000 + 100 * s + 10 * n + v;
  reconcile_job = λ n v. 5000 + 10 * n + v;
  reconcile_event = λ n v. 6000 + 10 * n + v;
}

abbrev world : ℕ → AccessWorld
world now = record {
  now = now;
  job_id = λ node. 100 + node;
  event_id = λ node. 200 + node;
  grant_id = λ device. 300 + device;
}

abbrev subscription : SubscriptionRow
subscription = record {
  id = 2;
  user_id = 1;
  status = SubscriptionStatus.active;
  expires_at = some 1_000;
  cancelled_at = none;
}

abbrev node : NodeRow
node = record { id = 3; status = healthy; desired_config_version = 2; applied_config_version = 2 }

abbrev grant : GrantRow
grant = record {
  id = 5;
  node_id = 3;
  device_id = 4;
  status = GrantStatus.active;
  expires_at = 1_000;
  desired_version = 2;
  applied_version = 2;
  revoked_at = none;
}

abbrev with_grants : List GrantRow → Store
with_grants grants = record {
  subscriptions = subscription ∷ [];
  devices = record { id = 4; user_id = 1; status = DeviceStatus.active; revoked_at = none } ∷ [];
  nodes = node ∷ [];
  grants = grants;
  jobs = [];
  events = [];
  acknowledged = [];
  audit = [];
}

abbrev store : Store
store = with_grants (grant ∷ [])

abbrev cancelled_store : Store
cancelled_store = (cancel_subscription_access keys (world 500) 2 store).1

cancels : cancel_subscription_access keys (world 500) 2 store ≡ (cancelled, cancelled_store)
unfolding cancel_subscription_access
cancels = refl

revokes : map (λ (g : GrantRow). g.status) cancelled_store.grants ≡ GrantStatus.revoked ∷ []
unfolding cancel_subscription_access
revokes = refl

cancel_withdraws_access_example :
    (next : Store) × (cancel_subscription_access keys (world 500) 2 store ≡ (cancelled, next))
    × Withdrawn 500 subscription store next
cancel_withdraws_access_example =
    cancel_withdraws_access keys (world 500) subscription 2 store (refl, tt) (refl, tt) refl refl

cancel_final_example :
    cancel_subscription_access keys (world 600) 2 cancelled_store
    ≡ (already_cancelled, cancelled_store)
cancel_final_example = cancel_final keys (world 500) (world 600) 2 store cancelled_store cancels

abbrev committed_store : Tx Bool → Store
committed_store (committed _ next) = next
committed_store (rolled_back _) = store

abbrev scheduled : Store
scheduled = committed_store (schedule_expired_subscription_on_node keys (world 1_100) 2 3 store)

schedules :
    schedule_expired_subscription_on_node keys (world 1_100) 2 3 store ≡ committed true scheduled
unfolding schedule_expired_subscription_on_node
schedules = refl

schedule_once_example :
    schedule_expired_subscription_on_node keys (world 1_200) 2 3 scheduled
    ≡ committed false scheduled
schedule_once_example =
    schedule_once keys (world 1_100) (world 1_200) 2 3 store scheduled (omega arith) schedules

materialize_unobservable_example :
    let (done, next) = materialize_expired_subscription_status 1_100 2 store in
    (map (shown 1_200) next.subscriptions ≡ map (shown 1_200) store.subscriptions)
    × ((done ≡ false) ⊎ (materialize_expired_subscription_status 1_200 2 next ≡ (false, next)))
materialize_unobservable_example =
    materialize_unobservable 1_100 1_200 2 store (refl, tt) (omega arith)

missing_grant_selected : needs_reconciliation 500 (with_grants []) node ≡ true
unfolding needs_reconciliation
missing_grant_selected = refl

selected_iff_reconciled_example :
    needs_reconciliation 500 (with_grants []) node
    ≡ (reconcile_one_node keys (world 500) 3 false (with_grants [])).0
selected_iff_reconciled_example =
    selected_iff_reconciled keys (world 500) node (with_grants []) (refl, tt) tt (inl refl)

abbrev ids : List ℕ
ids = 1 ∷ 2 ∷ 3 ∷ []

find_candidates-rotation_example :
    ((find_candidates 2 (some 2) ids).0 ≡ take 2 (rotation (some 2) ids))
    × ((2 < 3) ⊎ All (λ id. In id (find_candidates 2 (some 2) ids).0) ids)
find_candidates-rotation_example = find_candidates-rotation 2 (some 2) ids

wraps_around : find_candidates 2 (some 2) ids ≡ (3 ∷ 1 ∷ [], some 1)
unfolding find_candidates
wraps_around = refl

abbrev batch_world : MaintenanceWorld
batch_world = record {
  listed_at = 1_100;
  nodes_at = λ s. 1_110;
  on_node = λ s n. world 1_120;
  stored_at = λ s. 1_130;
  listing_throws = λ s. false;
  scheduling_throws = λ s n. false;
  storing_throws = λ s. false;
}

abbrev status_of : SubscriptionRow → SubscriptionStatus
status_of s = s.status

-- The transaction on the status of the subscription throws.
abbrev failing_world : MaintenanceWorld
failing_world = record batch_world { storing_throws = λ s. s == 2 }

settles :
    let run = (materialize_expired_subscriptions keys batch_world 10 none store).0 in
    (map status_of run.store.subscriptions ≡ SubscriptionStatus.expired ∷ [])
    × (run.result ≡ record { processed = 1; failed = 0 })
unfolding materialize_expired_subscriptions expired_candidates find_candidates
    find_pending_expiry_nodes schedule_expired_subscription_on_node
    materialize_expired_subscription_status
settles = (refl, refl)

stays_active :
    let run = (materialize_expired_subscriptions keys failing_world 10 none store).0 in
    (map status_of run.store.subscriptions ≡ SubscriptionStatus.active ∷ [])
    × (run.result ≡ record { processed = 1; failed = 1 })
unfolding materialize_expired_subscriptions expired_candidates find_candidates
    find_pending_expiry_nodes schedule_expired_subscription_on_node
    materialize_expired_subscription_status
stays_active = (refl, refl)

batch-SettledOrCounted_example :
    All
      (λ id.
        SettledOrCounted failing_world id
          (materialize_expired_subscriptions keys failing_world 10 none store).0)
      (find_candidates 10 none (expired_candidates keys 1_100 store)).0
batch-SettledOrCounted_example =
    batch-SettledOrCounted keys failing_world 10 none store (refl, tt) (λ id. omega arith)
