-- ===== src/Orchestration/Subscriptions/Expiry.antt =====
-- The expiry of subscriptions in packages/orchestration-store/src/subscription-access-store.ts:
-- the transaction that schedules it on one node, the one that stores the status, and what they
-- look up.
use vpnplatform.Base.{
  ℕ, Bool, true, false, ◌&&◌, ◌||◌, Option, none, some, List, [], ◌∷◌, ltb, ◌==◌, filter, find,
  is_some, get_or, same_option, length, if◌then◌else◌,
}
use vpnplatform.Base.Sort.{sort_by}
use vpnplatform.Access.{SubscriptionStatus}
use vpnplatform.Orchestration.Outbox.{after}
use vpnplatform.Orchestration.Database.{NodeRow, GrantRow, NodeSyncJob}
use vpnplatform.Orchestration.Subscriptions.{
  SubscriptionRow, DeliveryEvent, expiry_access_scheduled, subscription_expired, Store, Keys,
  AccessWorld, Tx, committed, rolled_back, inconsistent_operation, requires_delivery, entitled_at,
  is_user_live, next_version, increment_node_version, create_node_sync_operation, add_audit,
  update_grants, update_subscription,
}

abbrev pub is_active : SubscriptionStatus → Bool
is_active SubscriptionStatus.active = true
is_active _ = false

abbrev pub is_active_or_expired : SubscriptionStatus → Bool
is_active_or_expired SubscriptionStatus.active = true
is_active_or_expired SubscriptionStatus.expired = true
is_active_or_expired _ = false

-- The row that is locked before an expiry is scheduled, and before its status is stored.
abbrev pub dated_subscription : ℕ → Store → Option SubscriptionRow
dated_subscription id store =
    find
      (λ (s : SubscriptionRow).
        (s.id == id) && is_active_or_expired s.status && is_some s.expires_at)
      store.subscriptions

abbrev pub is_dated_active : ℕ → SubscriptionRow → Bool
is_dated_active id s = (s.id == id) && is_active s.status && is_some s.expires_at

abbrev pub dated_active_subscription : ℕ → Store → Option SubscriptionRow
dated_active_subscription id store = find (is_dated_active id) store.subscriptions

abbrev pub deliverable_node : ℕ → Store → Option NodeRow
deliverable_node id store =
    find (λ (n : NodeRow). (n.id == id) && requires_delivery n.status) store.nodes

-- `ORDER BY "expiresAt" DESC, "id"`
abbrev pub expires_later : SubscriptionRow → SubscriptionRow → Bool
expires_later left right =
    ltb (get_or right.expires_at 0) (get_or left.expires_at 0)
    || ((get_or right.expires_at 0 == get_or left.expires_at 0) && ltb left.id right.id)

abbrev pub gives_entitlement : ℕ → ℕ → SubscriptionRow → Bool
gives_entitlement user now s = (s.user_id == user) && entitled_at now s

abbrev pub first_expiry : List SubscriptionRow → Option ℕ
first_expiry [] = none
first_expiry (s ∷ _) = s.expires_at

abbrev pub find_effective_expiry : ℕ → ℕ → Store → Option ℕ
find_effective_expiry user now store =
    first_expiry (sort_by expires_later (filter (gives_entitlement user now) store.subscriptions))

abbrev pub grant_id_before : GrantRow → GrantRow → Bool
grant_id_before left right = ltb left.id right.id

abbrev pub is_live_on : ℕ → ℕ → Store → GrantRow → Bool
is_live_on user node store g = (g.node_id == node) && is_user_live user store.devices g

abbrev pub expiring_grants : ℕ → ℕ → Store → List GrantRow
expiring_grants user node store =
    sort_by grant_id_before (filter (is_live_on user node store) store.grants)

pub data Matching : Type 0 where
  absent matching inconsistent : Matching

abbrev pub match_operation : ℕ → ℕ → Option NodeSyncJob → Option DeliveryEvent → Matching
match_operation node lead none none = absent
match_operation node lead none (some event) = inconsistent
match_operation node lead (some job) none = inconsistent
match_operation node lead (some job) (some event) =
    if (job.node_id == node)
      && same_option job.node_access_grant_id (some lead)
      && (event.aggregate_id == lead)
    then matching
    else inconsistent

abbrev pub job_by_key : ℕ → Store → Option NodeSyncJob
job_by_key key store = find (λ (j : NodeSyncJob). j.idempotency_key == key) store.jobs

abbrev pub event_by_key : ℕ → Store → Option DeliveryEvent
event_by_key key store = find (λ (e : DeliveryEvent). e.idempotency_key == key) store.events

-- `hasMatchingNodeSyncOperation`, where `inconsistent` is its error.
abbrev pub has_matching_node_sync_operation :
    Keys → SubscriptionRow → NodeRow → ℕ → Store → Matching
has_matching_node_sync_operation keys s n lead store =
    match_operation n.id lead (job_by_key (keys.expiry_job s.id n.id) store)
      (event_by_key (keys.expiry_event s.id n.id) store)

abbrev pub set_expiry : ℕ → ℕ → GrantRow → GrantRow
set_expiry expiry version g = record g { expires_at = expiry; desired_version = version }

abbrev pub schedule_update :
    Keys → AccessWorld → SubscriptionRow → NodeRow → ℕ → GrantRow → List GrantRow → Store → Store
schedule_update keys w s n expiry lead rest store =
    let version = next_version n in
    add_audit (expiry_access_scheduled s.id n.id version (length (lead ∷ rest))) (
      create_node_sync_operation w
        (record {
          node_id = n.id;
          lead_grant_id = lead.id;
          target_version = version;
          sync_job_idempotency_key = keys.expiry_job s.id n.id;
          outbox_event_idempotency_key = keys.expiry_event s.id n.id;
        })
        (update_grants (lead ∷ rest) (set_expiry expiry version) (increment_node_version n store)))

-- The replacement, or the date of the subscription itself.
abbrev pub desired_expiry : ℕ → SubscriptionRow → Store → ℕ
desired_expiry now s store =
    get_or (find_effective_expiry s.user_id now store) (get_or s.expires_at 0)

abbrev pub schedule_matching :
    Keys
    → AccessWorld
    → SubscriptionRow
    → NodeRow
    → GrantRow
    → List GrantRow
    → Matching
    → Store
    → Tx Bool
schedule_matching keys w s n lead rest inconsistent store = rolled_back inconsistent_operation
schedule_matching keys w s n lead rest matching store = committed false store
schedule_matching keys w s n lead rest absent store =
    committed true (schedule_update keys w s n (desired_expiry w.now s store) lead rest store)

abbrev pub schedule_grants :
    Keys → AccessWorld → SubscriptionRow → NodeRow → List GrantRow → Store → Tx Bool
schedule_grants keys w s n [] store = committed false store
schedule_grants keys w s n (lead ∷ rest) store =
    schedule_matching keys w s n lead rest (has_matching_node_sync_operation keys s n lead.id store)
      store

abbrev pub schedule_locked :
    Keys → AccessWorld → Option SubscriptionRow → Option NodeRow → Store → Tx Bool
schedule_locked keys w none _ store = committed false store
schedule_locked keys w (some s) none store = committed false store
schedule_locked keys w (some s) (some n) store =
    if after s.expires_at w.now
    then committed false store
    else schedule_grants keys w s n (expiring_grants s.user_id n.id store) store

unfoldable pub schedule_expired_subscription_on_node :
    Keys → AccessWorld → (subscription node : ℕ) → Store → Tx Bool
unfolding sort_by
schedule_expired_subscription_on_node keys w subscription node store =
    schedule_locked keys w (dated_subscription subscription store) (deliverable_node node store)
      store

abbrev pub mark_expired : SubscriptionRow → SubscriptionRow
mark_expired s = record s { status = SubscriptionStatus.expired }

abbrev pub store_expired : ℕ → SubscriptionRow → Store → Store
store_expired now s store =
    add_audit (subscription_expired s.id now) (update_subscription s.id mark_expired store)

abbrev pub materialize_locked : ℕ → Option SubscriptionRow → Store → Bool × Store
materialize_locked now none store = (false, store)
materialize_locked now (some s) store =
    if after s.expires_at now then (false, store) else (true, store_expired now s store)

unfoldable pub materialize_expired_subscription_status :
    (now subscription : ℕ) → Store → Bool × Store
materialize_expired_subscription_status now subscription store =
    materialize_locked now (dated_active_subscription subscription store) store
