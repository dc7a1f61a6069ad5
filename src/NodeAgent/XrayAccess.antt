-- ===== src/NodeAgent/XrayAccess.antt =====
-- apps/node-agent/src/xray-access.ts: which clients a node may serve, and when access that has
-- ended must be enforced. Grant ids are sorted by `localeCompare`, which orders UUIDs as numbers.
pub mod Clients
pub mod Revocations
use vpnplatform.Base.{
  ℕ, ◌+◌, Bool, true, false, ◌&&◌, ◌||◌, not, Option, none, some, List, [], ◌∷◌, map, ltb, leb,
  ◌==◌, if◌then◌else◌, min, collect,
}
use vpnplatform.Base.Sort.{sort_by}
use vpnplatform.Access.{GrantStatus}
use vpnplatform.NodeAgent.Snapshot.{Instant, Grant, Snapshot}

pub record XrayClient : Type 0 where
  pub grant_id : ℕ
  pub credential : ℕ

abbrev is_active : GrantStatus → Bool
is_active GrantStatus.active = true
is_active _ = false

abbrev is_revoked : GrantStatus → Bool
is_revoked GrantStatus.revoked = true
is_revoked _ = false

-- `getActiveGrantExpiry`: NaN is `none`.
unfoldable pub active_grant_expiry : Grant → Instant
active_grant_expiry grant = if not (is_active grant.status) then none else elim grant.revoked_at [
  | some _ ↦ none
  | none ↦ elim grant.data_plane_credential [ none ↦ none | some _ ↦ grant.expires_at ]
]

-- The expiry of an active grant, if it lies after `now`.
unfoldable pub live_expiry : Grant → ℕ → Option ℕ
unfolding active_grant_expiry
live_expiry grant now = elim (active_grant_expiry grant) [
  | none ↦ none
  | some at ↦ if leb at now then none else some at
]

abbrev pub client_by : Option ℕ → Grant → Option XrayClient
client_by none grant = none
client_by (some _) grant = elim grant.data_plane_credential [
  | none ↦ none
  | some credential ↦ some (record { grant_id = grant.id; credential = credential })
]

unfoldable pub client_of : Grant → ℕ → Option XrayClient
unfolding live_expiry
client_of grant now = client_by (live_expiry grant now) grant

abbrev pub servable_clients : List Grant → ℕ → List XrayClient
servable_clients grants now = collect (λ g. client_of g now) grants

abbrev pub client_before : XrayClient → XrayClient → Bool
client_before left right = ltb left.grant_id right.grant_id

unfoldable pub select_servable_xray_clients : Snapshot → ℕ → List XrayClient
unfolding sort_by
select_servable_xray_clients snapshot now =
    sort_by client_before (servable_clients snapshot.grants now)

-- `if (best === null || candidate < best) best = candidate`
abbrev pub earlier : Option ℕ → ℕ → Option ℕ
earlier none candidate = some candidate
earlier (some best) candidate = if ltb candidate best then some candidate else some best

abbrev pub earlier_option : Option ℕ → Option ℕ → Option ℕ
earlier_option best none = best
earlier_option best (some candidate) = earlier best candidate

unfoldable pub next_expiry : Option ℕ → List Grant → ℕ → Option ℕ
next_expiry best [] now = best
next_expiry best (grant ∷ grants) now =
    next_expiry (earlier_option best (live_expiry grant now)) grants now

unfoldable pub find_next_xray_client_expiry : Snapshot → ℕ → Option ℕ
unfolding next_expiry
find_next_xray_client_expiry snapshot now = next_expiry none snapshot.grants now

-- The deadline of an active grant whose expiry has passed.
unfoldable pub expired_deadline : Grant → ℕ → ℕ → Option ℕ
expired_deadline grant now sla = elim (active_grant_expiry grant) [
  | none ↦ none
  | some at ↦ if ltb now at then none else some (at + sla)
]

unfoldable pub expired_deadlines : Option ℕ → List Grant → ℕ → ℕ → Option ℕ
expired_deadlines best [] now sla = best
expired_deadlines best (grant ∷ grants) now sla =
    expired_deadlines (earlier_option best (expired_deadline grant now sla)) grants now sla

unfoldable pub find_expired_xray_client_enforcement_deadline : Snapshot → ℕ → ℕ → Option ℕ
unfolding expired_deadlines
find_expired_xray_client_enforcement_deadline snapshot now sla =
    expired_deadlines none snapshot.grants now sla

pub record RevocationEnforcement : Type 0 where
  pub grant_id : ℕ
  pub deadline_at : Instant

-- `new Map(grants.map((grant) => [grant.id, grant])).get(id)`: the last one of an id.
abbrev pub grant_by_id : ℕ → List Grant → Option Grant
grant_by_id id [] = none
grant_by_id id (grant ∷ grants) =
    let later = grant_by_id id grants in
    elim later [ some g ↦ some g | none ↦ if grant.id == id then some grant else none ]

-- `a <= b` on instants: false where either is NaN.
abbrev pub instant_le : Instant → Instant → Bool
instant_le (some a) (some b) = leb a b
instant_le _ _ = false

abbrev pub instant_plus : Instant → ℕ → Instant
instant_plus none d = none
instant_plus (some a) d = some (a + d)

-- The previous grant was served until the revocation.
was_served : Option Grant → Instant → Bool
was_served none revoked_at = false
was_served (some previous) revoked_at =
    is_active previous.status
    && elim previous.revoked_at [ none ↦ true | some _ ↦ false ]
    && elim previous.data_plane_credential [ none ↦ false | some _ ↦ true ]
    && not (instant_le previous.expires_at revoked_at)

-- A revocation whose instant is finite and has come.
abbrev pub has_come : Instant → ℕ → Bool
has_come none now = false
has_come (some at) now = leb at now

abbrev enforcement : ℕ → Instant → ℕ → RevocationEnforcement
enforcement id revoked_at sla = record { grant_id = id; deadline_at = instant_plus revoked_at sla }

unfoldable pub revoked_enforcement : List Grant → Grant → ℕ → ℕ → Option RevocationEnforcement
unfolding was_served
revoked_enforcement previous grant now sla =
    if not (is_revoked grant.status) then none else elim grant.revoked_at [
      | none ↦ none
      | some revoked_at ↦
          if was_served (grant_by_id grant.id previous) revoked_at && has_come revoked_at now
          then some (enforcement grant.id revoked_at sla)
          else none
    ]

abbrev pub enforcement_before : RevocationEnforcement → RevocationEnforcement → Bool
enforcement_before left right = ltb left.grant_id right.grant_id

unfoldable pub find_revoked_xray_client_enforcements :
    Snapshot → Snapshot → ℕ → ℕ → List RevocationEnforcement
unfolding sort_by
find_revoked_xray_client_enforcements previous next now sla =
    sort_by enforcement_before
      (collect (λ g. revoked_enforcement previous.grants g now sla) next.grants)

-- `earliest === null ? deadline : Math.min(earliest, deadline)`, where NaN wins.
abbrev pub min_deadline : Option Instant → Instant → Instant
min_deadline none d = d
min_deadline (some none) d = none
min_deadline (some (some a)) none = none
min_deadline (some (some a)) (some d) = some (min a d)

abbrev pub earliest_deadline : Option Instant → List RevocationEnforcement → Option Instant
earliest_deadline earliest [] = earliest
earliest_deadline earliest (e ∷ es) =
    earliest_deadline (some (min_deadline earliest e.deadline_at)) es

unfoldable pub find_revoked_xray_client_enforcement_deadline :
    Snapshot → Snapshot → ℕ → ℕ → Option Instant
unfolding find_revoked_xray_client_enforcements
find_revoked_xray_client_enforcement_deadline previous next now sla =
    earliest_deadline none (find_revoked_xray_client_enforcements previous next now sla)

unfoldable pub snapshot_enforcement : Grant → ℕ → Option RevocationEnforcement
snapshot_enforcement grant sla =
    if not (is_revoked grant.status) then none else elim grant.revoked_at [
      | none ↦ none
      | some revoked_at ↦ some (enforcement grant.id revoked_at sla)
    ]

unfoldable pub find_snapshot_revocation_enforcements : Snapshot → ℕ → List RevocationEnforcement
unfolding sort_by
find_snapshot_revocation_enforcements snapshot sla =
    sort_by enforcement_before (collect (λ g. snapshot_enforcement g sla) snapshot.grants)
