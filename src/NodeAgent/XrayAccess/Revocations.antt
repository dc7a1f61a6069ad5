-- ===== src/NodeAgent/XrayAccess/Revocations.antt =====
-- Deadlines of access that has ended.
use vpnplatform.Base.{
  ℕ, ◌+◌, ◌≤◌, ◌≡◌, ◌↔◌, ◌⊎◌, inl, inr, refl, subst, true, false, Option, none, some, List, [], ◌∷◌,
  arith, In, Option-cases, In-collect, collect, is_some,
}
use vpnplatform.Base.Sort.{In-sort_by}
use vpnplatform.Access.{GrantStatus}
use vpnplatform.NodeAgent.Snapshot.{Grant, Snapshot}
use vpnplatform.NodeAgent.XrayAccess.Clients.{earlier_option-cases}
use vpnplatform.NodeAgent.XrayAccess.{
  active_grant_expiry, earlier_option, expired_deadline, expired_deadlines,
  find_expired_xray_client_enforcement_deadline, RevocationEnforcement, grant_by_id, instant_le,
  revoked_enforcement, was_served, enforcement_before, find_revoked_xray_client_enforcements,
}

-- `d` is none, or not before `candidate`.
abbrev pub NotAfter : Option ℕ → ℕ → Type 0
NotAfter none candidate = ⊥
NotAfter (some d) candidate = d ≤ candidate

earlier_option-NotAfter :
    (best candidate : Option ℕ) (d : ℕ)
    → (NotAfter best d → NotAfter (earlier_option best candidate) d)
      × (candidate ≡ some d → NotAfter (earlier_option best candidate) d)
earlier_option-NotAfter best candidate d = ground arith

expired_deadlines-best :
    (best : Option ℕ) (grants : List Grant) (now sla d : ℕ)
    → NotAfter best d
    → NotAfter (expired_deadlines best grants now sla) d
unfolding expired_deadlines
expired_deadlines-best best [] now sla d h = h
expired_deadlines-best best (g ∷ grants) now sla d h =
    expired_deadlines-best (earlier_option best (expired_deadline g now sla)) grants now sla d
      ((earlier_option-NotAfter best (expired_deadline g now sla) d).0 h)

expired_deadlines-le :
    (best : Option ℕ) (grants : List Grant) (now sla d : ℕ) (grant : Grant)
    → In grant grants
    → expired_deadline grant now sla ≡ some d
    → NotAfter (expired_deadlines best grants now sla) d
unfolding expired_deadlines
expired_deadlines-le best [] now sla d grant i h = absurd i
expired_deadlines-le best (g ∷ grants) now sla d grant (inl e) h =
    expired_deadlines-best (earlier_option best (expired_deadline g now sla)) grants now sla d (
      (earlier_option-NotAfter best (expired_deadline g now sla) d).1
        (subst (λ g'. expired_deadline g' now sla ≡ some d) e h))
expired_deadlines-le best (g ∷ grants) now sla d grant (inr i) h =
    expired_deadlines-le (earlier_option best (expired_deadline g now sla)) grants now sla d grant i
      h

expired_deadlines-found :
    (best : Option ℕ) (grants : List Grant) (now sla d : ℕ)
    → expired_deadlines best grants now sla ≡ some d
    → (best ≡ some d)
      ⊎ ((grant : Grant) × In grant grants × (expired_deadline grant now sla ≡ some d))
unfolding expired_deadlines
expired_deadlines-found best [] now sla d h = inl h
expired_deadlines-found best (g ∷ grants) now sla d h =
    elim (expired_deadlines-found (earlier_option best (expired_deadline g now sla)) grants now sla
      d h) [
        | inl found ↦ elim (earlier_option-cases best (expired_deadline g now sla) d found) [
          | inl old ↦ inl old
          | inr new ↦ inr (g, inl refl, new)
        ]
        | inr (grant, i, e) ↦ inr (grant, inr i, e)
      ]

expired_deadline-eq :
    (grant : Grant) (now sla d : ℕ)
    → (expired_deadline grant now sla ≡ some d)
      ↔ ((at : ℕ) × (active_grant_expiry grant ≡ some at) × (at ≤ now) × (d ≡ at + sla))
unfolding expired_deadline
expired_deadline-eq grant now sla d = ground arith

-- Where expired clients have an enforcement deadline, it lies the given span after the expiry
-- of a grant that is active but for its expiry and has expired.
pub find_expired_deadline_attained :
    (snapshot : Snapshot) (now sla d : ℕ)
    → find_expired_xray_client_enforcement_deadline snapshot now sla ≡ some d
    → (grant : Grant) × (at : ℕ) × In grant snapshot.grants
      × (active_grant_expiry grant ≡ some at)
      × (at ≤ now)
      × (d ≡ at + sla)
unfolding find_expired_xray_client_enforcement_deadline
find_expired_deadline_attained snapshot now sla d h =
    elim (expired_deadlines-found none snapshot.grants now sla d h) [
      | inl nothing ↦ cc
      | inr (grant, i, e) ↦
          let (at, live, past, same) = (expired_deadline-eq grant now sla d).0 e in
          (grant, at, i, live, past, same)
    ]

-- Where a grant that is active but for its expiry has expired there is a deadline, and it is no
-- later than the given span after that grant's expiry.
pub find_expired_deadline_earliest :
    (snapshot : Snapshot) (now sla : ℕ) (grant : Grant) (at : ℕ)
    → In grant snapshot.grants
    → active_grant_expiry grant ≡ some at
    → at ≤ now
    → NotAfter (find_expired_xray_client_enforcement_deadline snapshot now sla) (at + sla)
unfolding find_expired_xray_client_enforcement_deadline
find_expired_deadline_earliest snapshot now sla grant at i live past =
    expired_deadlines-le none snapshot.grants now sla (at + sla) grant i
      ((expired_deadline-eq grant now sla (at + sla)).1 (at, live, past, refl))

-- The previous configuration let the grant's client in at the time of its revocation.
pub record LostAccess (previous : Grant) (revoked_at : ℕ) : Type 0 where
  pub active : previous.status ≡ GrantStatus.active
  pub not_revoked : previous.revoked_at ≡ none
  pub credential : is_some previous.data_plane_credential ≡ true
  pub unexpired : instant_le previous.expires_at (some revoked_at) ≡ false

-- A revocation in the next configuration that has come and ends access.
pub record EndsAccess (previous : List Grant) (grant : Grant) (now sla : ℕ)
    (e : RevocationEnforcement) : Type 0 where
  pub revoked : grant.status ≡ GrantStatus.revoked
  pub revoked_at : ℕ
  pub at : grant.revoked_at ≡ some (some revoked_at)
  pub come : revoked_at ≤ now
  pub before : Grant
  pub found : grant_by_id grant.id previous ≡ some before
  pub lost : LostAccess before revoked_at
  pub grant_id : e.grant_id ≡ grant.id
  pub deadline : e.deadline_at ≡ some (revoked_at + sla)

LostAccess-was_served :
    (previous : Grant) (r : ℕ)
    → (was_served (some previous) (some r) ≡ true) ↔ LostAccess previous r
unfolding was_served
LostAccess-was_served previous r = ground arith

revoked_enforcement-EndsAccess :
    (previous : List Grant) (grant : Grant) (now sla : ℕ) (e : RevocationEnforcement)
    → revoked_enforcement previous grant now sla ≡ some e
    → EndsAccess previous grant now sla e
unfolding revoked_enforcement
revoked_enforcement-EndsAccess previous grant now sla e h = elim (Option-cases grant.revoked_at) [
  | inl never ↦ absurd (ground arith)
  | inr (r, at) ↦ elim (Option-cases r) [
    | inl nan ↦ absurd (ground arith)
    | inr (t, time) ↦ elim (Option-cases (grant_by_id grant.id previous)) [
      | inl unknown ↦ absurd (ground arith)
      | inr (before, found) ↦ record {
        revoked = ground arith;
        revoked_at = t;
        at = ground arith;
        come = ground arith;
        before = before;
        found = found;
        lost = ground (arith, LostAccess-was_served before t);
        grant_id = ground arith;
        deadline = ground arith;
      }
    ]
  ]
]

EndsAccess-revoked_enforcement :
    (previous : List Grant) (grant : Grant) (now sla : ℕ) (e : RevocationEnforcement)
    → EndsAccess previous grant now sla e
    → revoked_enforcement previous grant now sla ≡ some e
unfolding revoked_enforcement
EndsAccess-revoked_enforcement previous grant now sla e h =
    ground (arith, LostAccess-was_served h.before h.revoked_at)

-- The enforcements between two configurations are exactly those of the grants that the next one
-- reports as revoked at a time that has come and that the previous one let in at that time; the
-- deadline of each lies the given span after its revocation.
pub In-find_revoked_xray_client_enforcements :
    (previous next : Snapshot) (now sla : ℕ) (e : RevocationEnforcement)
    → In e (find_revoked_xray_client_enforcements previous next now sla)
      ↔ ((grant : Grant) × In grant next.grants × EndsAccess previous.grants grant now sla e)
unfolding find_revoked_xray_client_enforcements
In-find_revoked_xray_client_enforcements previous next now sla e =
    let enforce = λ (g : Grant). revoked_enforcement previous.grants g now sla in
    let sorted = In-sort_by enforcement_before e (collect enforce next.grants) in
    let collected = In-collect enforce e next.grants in
    (
      λ i.
          let (grant, k, found) = collected.0 (sorted.0 i) in
          (grant, k, revoked_enforcement-EndsAccess previous.grants grant now sla e found),
      λ (grant, k, ends). sorted.1 (
          collected.1
            (grant, k, EndsAccess-revoked_enforcement previous.grants grant now sla e ends)),
    )
