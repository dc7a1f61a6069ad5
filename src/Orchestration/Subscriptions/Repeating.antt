-- ===== src/Orchestration/Subscriptions/Repeating.antt =====
-- The scheduling of an expiry, repeated.
use vpnplatform.Base.{
  ℕ, ◌≤◌, ◌≡◌, refl, Bool, true, false, ◌&&◌, Option, none, some, List, [], ◌∷◌, arith, ltb, ◌==◌,
  map, filter, elem, subst, sym, ◌∙◌, ap, Bool-cases, find-In, ==_refl, inl, inr,
}
use vpnplatform.Base.Sort.{map-sort_by, sort_by}
use vpnplatform.Orchestration.Table.{update_where, find-update_where, map-filter-update_where}
use vpnplatform.Orchestration.Database.{NodeRow, GrantRow}
use vpnplatform.Orchestration.Outbox.{after}
use vpnplatform.Orchestration.Subscriptions.{
  SubscriptionRow, Store, Keys, AccessWorld, Tx, committed, rolled_back, requires_delivery, id_of,
  next_version, bump_version,
}
use vpnplatform.Orchestration.Subscriptions.Expiry.{
  dated_subscription, deliverable_node, grant_id_before, is_live_on, expiring_grants, Matching,
  absent, matching, inconsistent, set_expiry, schedule_update, desired_expiry, schedule_matching,
  schedule_grants, schedule_locked, schedule_expired_subscription_on_node,
}

abbrev live_ids : ℕ → ℕ → Store → List ℕ
live_ids user node store = map id_of (expiring_grants user node store)

sorted_ids :
    (grants : List GrantRow)
    → map id_of (sort_by grant_id_before grants) ≡ sort_by ltb (map id_of grants)
sorted_ids grants = map-sort_by id_of grant_id_before ltb (λ a b. refl) grants

-- An update that keeps ids and liveness keeps the ids of the live grants, and their order.
live_ids-update :
    (user node : ℕ) (q : GrantRow → Bool) (f : GrantRow → GrantRow) (store next : Store)
    → ((g : GrantRow) → (f g).id ≡ g.id)
    → ((g : GrantRow) → is_live_on user node store (f g) ≡ is_live_on user node store g)
    → next.devices ≡ store.devices
    → next.grants ≡ update_where q f store.grants
    → live_ids user node next ≡ live_ids user node store
live_ids-update user node q f store next keep same devices grants =
    let p = is_live_on user node store in
    sorted_ids (filter (is_live_on user node next) next.grants)
    ∙ ap (sort_by ltb)
        (rw (devices, grants) (map-filter-update_where id_of p q f store.grants keep same))
    ∙ sym (sorted_ids (filter p store.grants))

abbrev Repeats : Keys → AccessWorld → ℕ → ℕ → Tx Bool → Type 0
Repeats keys w subscription node (rolled_back _) = Unit
Repeats keys w subscription node (committed false next) = Unit
Repeats keys w subscription node (committed true next) =
    schedule_expired_subscription_on_node keys w subscription node next ≡ committed false next

-- A second look at the grants, with the operation's job and event in the store.
schedule_grants_again :
    (keys : Keys) (w2 w : AccessWorld) (s : SubscriptionRow) (n : NodeRow) (lead : GrantRow)
    (rest : List GrantRow) (expiry : ℕ) (found : List GrantRow) (store : Store)
    → map id_of found ≡ map id_of (lead ∷ rest)
    → let next = schedule_update keys w s n expiry lead rest store in
      schedule_grants keys w2 s (bump_version n) found next ≡ committed false next
schedule_grants_again keys w2 w s n lead rest expiry [] store h = refl
schedule_grants_again keys w2 w s n lead rest expiry (g ∷ found) store h =
    let same : g.id ≡ lead.id = cc in
    rw (same, ==_refl (keys.expiry_job s.id n.id), ==_refl (keys.expiry_event s.id n.id))
      (rw (==_refl n.id, ==_refl lead.id) refl)

schedule_update-Repeats :
    (keys : Keys) (w w2 : AccessWorld) (subscription node : ℕ) (s : SubscriptionRow) (n : NodeRow)
    (lead : GrantRow) (rest : List GrantRow) (store : Store)
    → w.now ≤ w2.now
    → dated_subscription subscription store ≡ some s
    → deliverable_node node store ≡ some n
    → after s.expires_at w.now ≡ false
    → expiring_grants s.user_id n.id store ≡ lead ∷ rest
    → Repeats keys w2 subscription node
        (committed true (schedule_update keys w s n (desired_expiry w.now s store) lead rest store))
unfolding schedule_expired_subscription_on_node
schedule_update-Repeats keys w w2 subscription node s n lead rest store order ds dn past e =
    let expiry = desired_expiry w.now s store in
    let next = schedule_update keys w s n expiry lead rest store in
    let on_node = λ (x : NodeRow). (x.id == node) && requires_delivery x.status in
    let named : n.id ≡ node = ground (arith, (find-In on_node n store.nodes dn).1) in
    let past2 : after s.expires_at w2.now ≡ false = ground arith in
    let again : deliverable_node node next ≡ some (bump_version n) =
      find-update_where on_node (λ (x : NodeRow). x.id == n.id) bump_version n store.nodes
        (λ r. refl) dn
      ∙ rw (==_refl n.id) refl in
    ap (λ o. schedule_locked keys w2 o (deliverable_node node next) next) ds
    ∙ ap (λ o. schedule_locked keys w2 (some s) o next) again
    ∙ rw past2 (
        schedule_grants_again keys w2 w s n lead rest expiry (expiring_grants s.user_id n.id next)
          store
          (live_ids-update s.user_id n.id (λ (g : GrantRow). elem g.id (map id_of (lead ∷ rest)))
              (set_expiry expiry (next_version n)) store next (λ g. refl) (λ g. refl) refl refl
            ∙ ap (map id_of) e))

Repeats-of :
    (keys : Keys) (w w2 : AccessWorld) (subscription node : ℕ) (s : SubscriptionRow) (n : NodeRow)
    (lead : GrantRow) (rest : List GrantRow) (m : Matching) (store : Store)
    → w.now ≤ w2.now
    → dated_subscription subscription store ≡ some s
    → deliverable_node node store ≡ some n
    → after s.expires_at w.now ≡ false
    → expiring_grants s.user_id n.id store ≡ lead ∷ rest
    → Repeats keys w2 subscription node (schedule_matching keys w s n lead rest m store)
Repeats-of keys w w2 subscription node s n lead rest inconsistent store order ds dn past e = tt
Repeats-of keys w w2 subscription node s n lead rest matching store order ds dn past e = tt
Repeats-of keys w w2 subscription node s n lead rest absent store order ds dn past e =
    schedule_update-Repeats keys w w2 subscription node s n lead rest store order ds dn past e

schedule_grants-Repeats :
    (keys : Keys) (w w2 : AccessWorld) (subscription node : ℕ) (s : SubscriptionRow) (n : NodeRow)
    (found : List GrantRow) (store : Store)
    → w.now ≤ w2.now
    → dated_subscription subscription store ≡ some s
    → deliverable_node node store ≡ some n
    → after s.expires_at w.now ≡ false
    → expiring_grants s.user_id n.id store ≡ found
    → Repeats keys w2 subscription node (schedule_grants keys w s n found store)
schedule_grants-Repeats keys w w2 subscription node s n [] store order ds dn past e = tt
schedule_grants-Repeats keys w w2 subscription node s n (lead ∷ rest) store order ds dn past e =
    Repeats-of keys w w2 subscription node s n lead rest _ store order ds dn past e

schedule_locked-Repeats :
    (keys : Keys) (w w2 : AccessWorld) (subscription node : ℕ) (os : Option SubscriptionRow)
    (on : Option NodeRow) (store : Store)
    → w.now ≤ w2.now
    → dated_subscription subscription store ≡ os
    → deliverable_node node store ≡ on
    → Repeats keys w2 subscription node (schedule_locked keys w os on store)
schedule_locked-Repeats keys w w2 subscription node none on store order ds dn = tt
schedule_locked-Repeats keys w w2 subscription node (some s) none store order ds dn = tt
schedule_locked-Repeats keys w w2 subscription node (some s) (some n) store order ds dn =
    elim (Bool-cases (after s.expires_at w.now)) [
      | inl y ↦ rw y tt
      | inr past ↦ rw past (
          schedule_grants-Repeats keys w w2 subscription node s n
            (expiring_grants s.user_id n.id store) store order ds dn past refl)
    ]

-- An expiry is scheduled on a node once: after a call that answered `true`, the same call at a
-- later time finds its job and event, answers `false` and changes nothing.
pub schedule_once :
    (keys : Keys) (w w2 : AccessWorld) (subscription node : ℕ) (store next : Store)
    → w.now ≤ w2.now
    → schedule_expired_subscription_on_node keys w subscription node store ≡ committed true next
    → schedule_expired_subscription_on_node keys w2 subscription node next ≡ committed false next
unfolding schedule_expired_subscription_on_node
schedule_once keys w w2 subscription node store next order h =
    subst (Repeats keys w2 subscription node) h (
      schedule_locked-Repeats keys w w2 subscription node (dated_subscription subscription store)
        (deliverable_node node store) store order refl refl)
