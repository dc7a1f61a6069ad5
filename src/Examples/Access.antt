-- ===== src/Examples/Access.antt =====
-- Access decisions of packages/orchestration-store/src/access-policy.ts at concrete inputs.
use vpnplatform.Base.{ℕ, ◌≤◌, ◌<◌, ◌≡◌, ◌↔◌, refl, true, some}
use vpnplatform.Access.{
  SubscriptionStatus, DeviceStatus, GrantStatus, healthy, EffectiveSubscription, has_entitlement,
  GrantView, is_grant_converged, is_route_ready, is_route_ready_iff,
}

abbrev subscription : EffectiveSubscription
subscription = record { status = SubscriptionStatus.active; expires_at = some 100 }

abbrev grant : GrantView
grant = record {
  status = GrantStatus.active;
  expires_at = 90;
  desired_version = 3;
  applied_version = 3;
}

entitled : has_entitlement DeviceStatus.active subscription 99 ≡ true
unfolding has_entitlement
entitled = refl

is_route_ready_iff_example :
    (is_route_ready (record {
      has_entitlement = has_entitlement DeviceStatus.active subscription 80;
      grant_converged = is_grant_converged grant 80;
      node_status = healthy;
      route_active = true;
      route_activation_version = some 2;
      node_applied_version = 3;
    })
      ≡ true)
    ↔ ((DeviceStatus.active ≡ DeviceStatus.active)
        × (subscription.status ≡ SubscriptionStatus.active)
        × ((at : ℕ) × (subscription.expires_at ≡ some at) × (80 < at))
        × (grant.status ≡ GrantStatus.active)
        × (80 < grant.expires_at)
        × (grant.applied_version ≡ grant.desired_version)
        × (healthy ≡ healthy)
        × (true ≡ true)
        × ((v : ℕ) × (some 2 ≡ some v) × (v ≤ 3)))
is_route_ready_iff_example =
    is_route_ready_iff DeviceStatus.active subscription grant healthy true (some 2) 3 80

ready :
    is_route_ready (record {
      has_entitlement = has_entitlement DeviceStatus.active subscription 80;
      grant_converged = is_grant_converged grant 80;
      node_status = healthy;
      route_active = true;
      route_activation_version = some 2;
      node_applied_version = 3;
    })
    ≡ true
unfolding is_route_ready has_entitlement is_grant_converged
ready = refl
