-- ===== src/Access.antt =====
-- packages/orchestration-store/src/access-policy.ts: who is entitled, and what makes a route
-- ready. A Date is its number of milliseconds since the epoch.
use vpnplatform.Base.{
  ℕ, ◌≤◌, ◌<◌, ◌≡◌, ◌↔◌, Bool, true, false, ◌&&◌, Option, none, some, arith, ltb, leb, ◌==◌,
  if◌then◌else◌,
}

pub data SubscriptionStatus : Type 0 where
  pending active expired cancelled : SubscriptionStatus

pub data DeviceStatus : Type 0 where
  active revoked : DeviceStatus

pub data GrantStatus : Type 0 where
  pending active revoked : GrantStatus

-- `enum NodeStatus` of the database schema.
pub data NodeStatus : Type 0 where
  provisioning healthy draining disabled quarantined deleted : NodeStatus

pub record EffectiveSubscription : Type 0 where
  pub status : SubscriptionStatus
  pub expires_at : Option ℕ

abbrev is_active_subscription : SubscriptionStatus → Bool
is_active_subscription SubscriptionStatus.active = true
is_active_subscription _ = false

abbrev is_active_device : DeviceStatus → Bool
is_active_device DeviceStatus.active = true
is_active_device _ = false

abbrev is_active_grant : GrantStatus → Bool
is_active_grant GrantStatus.active = true
is_active_grant _ = false

abbrev is_healthy_node : NodeStatus → Bool
is_healthy_node healthy = true
is_healthy_node _ = false

-- No expiry counts as expired.
abbrev has_expired : Option ℕ → ℕ → Bool
has_expired none now = true
has_expired (some at) now = leb at now

unfoldable pub effective_subscription_status : EffectiveSubscription → ℕ → SubscriptionStatus
effective_subscription_status subscription now =
    if is_active_subscription subscription.status && has_expired subscription.expires_at now
    then SubscriptionStatus.expired
    else subscription.status

unfoldable pub has_entitlement : DeviceStatus → EffectiveSubscription → ℕ → Bool
unfolding effective_subscription_status
has_entitlement device subscription now =
    is_active_device device
    && is_active_subscription (effective_subscription_status subscription now)

pub record GrantView : Type 0 where
  pub status : GrantStatus
  pub expires_at : ℕ
  pub desired_version : ℕ
  pub applied_version : ℕ

unfoldable pub is_grant_converged : GrantView → ℕ → Bool
is_grant_converged grant now =
    is_active_grant grant.status
    && ltb now grant.expires_at
    && grant.applied_version == grant.desired_version

pub record RouteView : Type 0 where
  pub has_entitlement : Bool
  pub grant_converged : Bool
  pub node_status : NodeStatus
  pub route_active : Bool
  pub route_activation_version : Option ℕ
  pub node_applied_version : ℕ

abbrev activated : Option ℕ → ℕ → Bool
activated none applied = false
activated (some version) applied = leb version applied

unfoldable pub is_route_ready : RouteView → Bool
is_route_ready input =
    input.has_entitlement
    && input.grant_converged
    && is_healthy_node input.node_status
    && input.route_active
    && activated input.route_activation_version input.node_applied_version

-- The effective status of a subscription is stable: it changes at the expiry only, from ACTIVE
-- to EXPIRED, and taking it twice at one time changes nothing.
pub effective_status_cases :
    (s : EffectiveSubscription) (now : ℕ)
    → let effective = effective_subscription_status s now in
      (effective ≡ SubscriptionStatus.active ↔ (
        (s.status ≡ SubscriptionStatus.active) × (at : ℕ) × (s.expires_at ≡ some at) × (now < at)))
      × (effective_subscription_status (record s { status = effective }) now ≡ effective)
unfolding effective_subscription_status
effective_status_cases s now = ground arith

-- A device that is entitled at one time was entitled at every earlier time, with the same
-- records: entitlement never comes back by the mere passing of time.
pub has_entitlement-antitone :
    (device : DeviceStatus) (s : EffectiveSubscription) (earlier later : ℕ)
    → earlier ≤ later
    → has_entitlement device s later ≡ true
    → has_entitlement device s earlier ≡ true
unfolding has_entitlement
has_entitlement-antitone device s earlier later order h = ground arith

-- A route over the views of one device, grant and node is ready exactly when the device, the
-- subscription and the grant are active, neither the subscription nor the grant has expired,
-- the grant's desired version is applied, the node is healthy, and the route is active and its
-- activation version is applied.
pub is_route_ready_iff :
    (device : DeviceStatus) (s : EffectiveSubscription) (grant : GrantView) (node : NodeStatus)
    (route_active : Bool) (activation : Option ℕ) (applied now : ℕ)
    → (is_route_ready (record {
      has_entitlement = has_entitlement device s now;
      grant_converged = is_grant_converged grant now;
      node_status = node;
      route_active = route_active;
      route_activation_version = activation;
      node_applied_version = applied;
    })
        ≡ true)
      ↔ ((device ≡ DeviceStatus.active)
          × (s.status ≡ SubscriptionStatus.active)
          × ((at : ℕ) × (s.expires_at ≡ some at) × (now < at))
          × (grant.status ≡ GrantStatus.active)
          × (now < grant.expires_at)
          × (grant.applied_version ≡ grant.desired_version)
          × (node ≡ healthy)
          × (route_active ≡ true)
          × ((v : ℕ) × (activation ≡ some v) × (v ≤ applied)))
unfolding is_route_ready has_entitlement is_grant_converged
is_route_ready_iff device s grant node route_active activation applied now = ground arith
