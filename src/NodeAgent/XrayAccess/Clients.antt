-- ===== src/NodeAgent/XrayAccess/Clients.antt =====
-- Which clients are served, and until when.
use vpnplatform.Base.{
  ℕ, ◌≤◌, ◌<◌, ◌≡◌, ◌↔◌, ◌⊎◌, inl, inr, refl, ap, Option, none, some, List, [], ◌∷◌, arith, In,
  In-collect,
}
use vpnplatform.Base.Sort.{sort_by, In-sort_by}
use vpnplatform.Access.{GrantStatus}
use vpnplatform.NodeAgent.Snapshot.{Grant, Snapshot}
use vpnplatform.NodeAgent.XrayAccess.{
  XrayClient, active_grant_expiry, live_expiry, client_of, client_by, servable_clients,
  client_before, select_servable_xray_clients, earlier_option, next_expiry,
  find_next_xray_client_expiry,
}

-- The grant gives the client access at the time `now`.
pub record Serves (grant : Grant) (now : ℕ) (client : XrayClient) : Type 0 where
  pub active : grant.status ≡ GrantStatus.active
  pub not_revoked : grant.revoked_at ≡ none
  pub credential : grant.data_plane_credential ≡ some client.credential
  pub id : grant.id ≡ client.grant_id
  pub expires_at : ℕ
  pub expiry : grant.expires_at ≡ some expires_at
  pub unexpired : now < expires_at

Serves-client_of :
    (grant : Grant) (now : ℕ) (client : XrayClient)
    → Serves grant now client
    → client_of grant now ≡ some client
unfolding client_of
Serves-client_of grant now client s = ground arith

client_of-Serves :
    (grant : Grant) (now : ℕ) (client : XrayClient)
    → client_of grant now ≡ some client
    → Serves grant now client
unfolding client_of
client_of-Serves grant now client e = ground arith

-- The clients that a node may serve are exactly those to whom an active grant with a credential
-- that is neither revoked nor expired gives access.
pub In-select_servable_xray_clients :
    (snapshot : Snapshot) (now : ℕ) (client : XrayClient)
    → In client (select_servable_xray_clients snapshot now)
      ↔ ((grant : Grant) × In grant snapshot.grants × Serves grant now client)
unfolding select_servable_xray_clients
In-select_servable_xray_clients snapshot now client =
    let sorted = In-sort_by client_before client (servable_clients snapshot.grants now) in
    let collected = In-collect (λ g. client_of g now) client snapshot.grants in
    (
      λ i.
          let (grant, k, e) = collected.0 (sorted.0 i) in
          (grant, k, client_of-Serves grant now client e),
      λ (grant, k, s). sorted.1 (collected.1 (grant, k, Serves-client_of grant now client s)),
    )

-- `t` lies before the instant, if there is one.
abbrev pub Before : ℕ → Option ℕ → Type 0
Before t none = Unit
Before t (some e) = t < e

Before-earlier_option :
    (t : ℕ) (best candidate : Option ℕ)
    → Before t (earlier_option best candidate)
    → Before t best × Before t candidate
Before-earlier_option t best candidate h = ground arith

Before-next_expiry :
    (t : ℕ) (best : Option ℕ) (grants : List Grant) (now : ℕ)
    → Before t (next_expiry best grants now)
    → Before t best
unfolding next_expiry
Before-next_expiry t best [] now h = h
Before-next_expiry t best (g ∷ grants) now h =
    (Before-earlier_option t best (live_expiry g now)
      (Before-next_expiry t (earlier_option best (live_expiry g now)) grants now h)).0

live_expiry-later :
    (grant : Grant) (now t : ℕ)
    → now ≤ t
    → Before t (live_expiry grant now)
    → live_expiry grant t ≡ live_expiry grant now
unfolding live_expiry
live_expiry-later grant now t later before = ground arith

client_of-later :
    (grant : Grant) (now t : ℕ)
    → live_expiry grant t ≡ live_expiry grant now
    → client_of grant t ≡ client_of grant now
unfolding client_of
client_of-later grant now t same = ap (λ live. client_by live grant) same

servable_clients-later :
    (best : Option ℕ) (grants : List Grant) (now t : ℕ)
    → now ≤ t
    → Before t (next_expiry best grants now)
    → servable_clients grants t ≡ servable_clients grants now
unfolding next_expiry
servable_clients-later best [] now t later before = refl
servable_clients-later best (g ∷ grants) now t later before =
    let best' = earlier_option best (live_expiry g now) in
    let here =
      (Before-earlier_option t best (live_expiry g now)
        (Before-next_expiry t best' grants now before)).1 in
    ground (
      arith,
      client_of-later g now t (live_expiry-later g now t later here),
      servable_clients-later best' grants now t later before,
    )

pub earlier_option-cases :
    (best candidate : Option ℕ) (e : ℕ)
    → earlier_option best candidate ≡ some e
    → (best ≡ some e) ⊎ (candidate ≡ some e)
earlier_option-cases best candidate e h = ground arith

live_expiry-eq :
    (grant : Grant) (now e : ℕ)
    → live_expiry grant now ≡ some e
    → (now < e) × (active_grant_expiry grant ≡ some e)
unfolding live_expiry
live_expiry-eq grant now e h = ground arith

next_expiry-found :
    (best : Option ℕ) (grants : List Grant) (now e : ℕ)
    → next_expiry best grants now ≡ some e
    → (best ≡ some e) ⊎ ((grant : Grant) × In grant grants × (live_expiry grant now ≡ some e))
unfolding next_expiry
next_expiry-found best [] now e h = inl h
next_expiry-found best (g ∷ grants) now e h =
    elim (next_expiry-found (earlier_option best (live_expiry g now)) grants now e h) [
      | inl found ↦ elim (earlier_option-cases best (live_expiry g now) e found) [
        | inl old ↦ inl old
        | inr new ↦ inr (g, inl refl, new)
      ]
      | inr (grant, i, live) ↦ inr (grant, inr i, live)
    ]

-- The next expiry lies in the future, and is the expiry of an active grant with a credential
-- that is not revoked.
pub find_next_expiry_live :
    (snapshot : Snapshot) (now e : ℕ)
    → find_next_xray_client_expiry snapshot now ≡ some e
    → (now < e)
      × ((grant : Grant) × In grant snapshot.grants × (active_grant_expiry grant ≡ some e))
unfolding find_next_xray_client_expiry
find_next_expiry_live snapshot now e h = elim (next_expiry-found none snapshot.grants now e h) [
  | inl nothing ↦ cc
  | inr (grant, i, live) ↦
      ((live_expiry-eq grant now e live).0, (grant, i, (live_expiry-eq grant now e live).1))
]

-- At every time before the next expiry, or at every later time where there is none, the clients
-- that a node may serve are those of now.
pub find_next_expiry_stable :
    (snapshot : Snapshot) (now t : ℕ)
    → now ≤ t
    → Before t (find_next_xray_client_expiry snapshot now)
    → select_servable_xray_clients snapshot t ≡ select_servable_xray_clients snapshot now
unfolding find_next_xray_client_expiry select_servable_xray_clients
find_next_expiry_stable snapshot now t later before =
    ap (sort_by client_before) (servable_clients-later none snapshot.grants now t later before)
