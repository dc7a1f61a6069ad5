-- ===== src/Orchestration/Subscriptions/Unobservable.antt =====
-- Storing that a subscription has expired shows nothing that its date did not show.
use vpnplatform.Base.{
  ◌⊎◌, ==→eq, All-find, ℕ, ◌≤◌, ◌≡◌, refl, Bool, true, false, Option, none, some, arith, ◌==◌, map,
  find, find-In, In, inl, inr, subst, sym, ap, Bool-cases, Nodup,
}
use vpnplatform.Access.{SubscriptionStatus, effective_subscription_status}
use vpnplatform.Orchestration.Table.{
  update_where, update_where-All, map-update_where-same, In-unique,
}
use vpnplatform.Orchestration.Outbox.{after}
use vpnplatform.Orchestration.Subscriptions.{SubscriptionRow, Store}
use vpnplatform.Orchestration.Subscriptions.Expiry.{
  is_dated_active, dated_active_subscription, mark_expired, store_expired, materialize_locked,
  materialize_expired_subscription_status,
}

abbrev pub subscription_id : SubscriptionRow → ℕ
subscription_id s = s.id

-- The effective status of a row at a time.
abbrev pub shown : ℕ → SubscriptionRow → SubscriptionStatus
shown now s =
    effective_subscription_status (record { status = s.status; expires_at = s.expires_at }) now

shown-mark_expired :
    (id now later : ℕ) (s : SubscriptionRow)
    → now ≤ later
    → is_dated_active id s ≡ true
    → after s.expires_at now ≡ false
    → shown later (mark_expired s) ≡ shown later s
unfolding effective_subscription_status
shown-mark_expired id now later s order open_ past = ground arith

module _ (now subscription : ℕ) (s : SubscriptionRow) (store : Store)
    (uniq : Nodup (map subscription_id store.subscriptions))
    (found : dated_active_subscription subscription store ≡ some s)
    (past : after s.expires_at now ≡ false) where
  there : In s store.subscriptions × (is_dated_active subscription s ≡ true)
  there = find-In (is_dated_active subscription) s store.subscriptions found

  -- The statement meets the row `s` alone.
  only : (r : SubscriptionRow) → In r store.subscriptions → (r.id == s.id) ≡ true → r ≡ s
  only r i y = In-unique subscription_id r s store.subscriptions uniq i there.0 (==→eq r.id s.id y)

  shown_same :
      (later : ℕ)
      → now ≤ later
      → map
          (shown later)
          (update_where (λ (r : SubscriptionRow). r.id == s.id) mark_expired store.subscriptions)
        ≡ map (shown later) store.subscriptions
  shown_same later order =
      map-update_where-same (shown later) (λ (r : SubscriptionRow). r.id == s.id) mark_expired
        store.subscriptions
        (λ r i y.
          subst (λ x. shown later (mark_expired x) ≡ shown later x) (sym (only r i y))
            (shown-mark_expired subscription now later s order there.1 past))

  no_longer :
      find
        (is_dated_active subscription)
        (update_where (λ (r : SubscriptionRow). r.id == s.id) mark_expired store.subscriptions)
      ≡ none
  no_longer = All-find (is_dated_active subscription) _ (
      update_where-All (λ r. is_dated_active subscription r ≡ false)
        (λ (r : SubscriptionRow). r.id == s.id) mark_expired store.subscriptions
        (λ r i y. ground arith) (λ r i n. ground (arith, there.1)))

-- What storing an expiry leaves visible.
abbrev Unobserved : (now later subscription : ℕ) → Store → Bool × Store → Type 0
Unobserved now later subscription store (done, next) =
    (map (shown later) next.subscriptions ≡ map (shown later) store.subscriptions)
    × ((done ≡ false)
        ⊎ (materialize_expired_subscription_status later subscription next ≡ (false, next)))

materialize_locked-Unobserved :
    (now later subscription : ℕ) (o : Option SubscriptionRow) (store : Store)
    → Nodup (map subscription_id store.subscriptions)
    → now ≤ later
    → dated_active_subscription subscription store ≡ o
    → Unobserved now later subscription store (materialize_locked now o store)
unfolding materialize_expired_subscription_status
materialize_locked-Unobserved now later subscription none store uniq order found = (refl, inl refl)
materialize_locked-Unobserved now later subscription (some s) store uniq order found =
    elim (Bool-cases (after s.expires_at now)) [
      | inl y ↦ rw y (refl, inl refl)
      | inr past ↦ rw past (
        shown_same now subscription s store uniq found past later order,
        inr (
            ap (λ o. materialize_locked later o (store_expired now s store))
              (no_longer now subscription s store uniq found past)),
      )
    ]

-- Storing the expiry of a subscription, where subscriptions have different ids: at this and at
-- every later time, each subscription has the effective status that it had before. Once a call
-- has answered `true`, a later one answers `false` and changes nothing.
pub materialize_unobservable :
    (now later subscription : ℕ) (store : Store)
    → Nodup (map subscription_id store.subscriptions)
    → now ≤ later
    → let (done, next) = materialize_expired_subscription_status now subscription store in
      (map (shown later) next.subscriptions ≡ map (shown later) store.subscriptions)
      × ((done ≡ false)
          ⊎ (materialize_expired_subscription_status later subscription next ≡ (false, next)))
unfolding materialize_expired_subscription_status
materialize_unobservable now later subscription store uniq order =
    materialize_locked-Unobserved now later subscription
      (dated_active_subscription subscription store) store uniq order refl
