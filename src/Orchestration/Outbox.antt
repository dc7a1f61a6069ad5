-- ===== src/Orchestration/Outbox.antt =====
-- The outbox: `PrismaOutboxStore` of packages/orchestration-store/src/outbox-store.ts and the
-- publisher of apps/worker/src/outbox-publisher.ts. A payload is what it parses to, if it does.
pub mod Leases
pub mod Fencing
pub mod Claims
pub mod Publisher
pub mod Delivery
pub mod Refinement
pub mod Progress
pub mod Rest
use vpnplatform.Base.{
  if◌then◌else◌, ℕ, ◌+◌, Bool, true, false, ◌&&◌, ◌||◌, Option, none, some, List, [], ◌∷◌, ltb, leb,
  ◌==◌, filter, elem,
}
use vpnplatform.Base.Sort.{sort_by}
use vpnplatform.Orchestration.Table.{update_where, affected}

pub data OutboxStatus : Type 0 where
  pending processing published failed : OutboxStatus

pub data Topic : Type 0 where
  node_sync_requested : Topic
  other_topic : ℕ → Topic

pub data ErrorCode : Type 0 where
  outbox_lease_expired outbox_unsupported_topic outbox_invalid_payload : ErrorCode
  outbox_publish_failed : ErrorCode

-- `NodeSyncRequestedEvent`: for an access grant, or for a connection route.
pub data NodeSyncCommand : Type 0 where
  grant_command : (node_access_grant_id node_sync_job_id target_version : ℕ) → NodeSyncCommand
  route_command :
      (route_endpoint_id route_connection_profile_id node_sync_job_id target_version : ℕ)
      → NodeSyncCommand

pub record OutboxEvent : Type 0 where
  pub id : ℕ
  pub topic : Topic
  pub payload : Option NodeSyncCommand
  pub status : OutboxStatus
  pub attempts : ℕ
  pub next_attempt_at : Option ℕ
  pub lease_owner : Option ℕ
  pub lease_token : Option ℕ
  pub lease_expires_at : Option ℕ
  pub published_at : Option ℕ
  pub last_error_code : Option ErrorCode
  pub created_at : ℕ
  pub updated_at : ℕ

-- The constructor's arguments of the store.
pub record OutboxConfig : Type 0 where
  pub lease_duration_ms : ℕ
  pub retry_delay_ms : ℕ
  pub max_attempts : ℕ
  pub event_ids : Option (List ℕ)

pub record ClaimedOutboxEvent : Type 0 where
  pub id : ℕ
  pub topic : Topic
  pub payload : Option NodeSyncCommand
  pub lease_token : ℕ

abbrev pub is_pending : OutboxStatus → Bool
is_pending pending = true
is_pending _ = false

abbrev pub is_processing : OutboxStatus → Bool
is_processing processing = true
is_processing _ = false

-- `column <= time`, `column > time` and `column = value` in SQL: not true where it is NULL.
abbrev pub due : Option ℕ → ℕ → Bool
due none now = false
due (some at) now = leb at now

abbrev pub after : Option ℕ → ℕ → Bool
after none now = false
after (some at) now = ltb now at

abbrev pub holds_value : Option ℕ → ℕ → Bool
holds_value none a = false
holds_value (some b) a = b == a

abbrev pub null_or_due : Option ℕ → ℕ → Bool
null_or_due none now = true
null_or_due (some at) now = leb at now

abbrev pub coalesce {ℓ} : {A : Type ℓ} → Option A → A → Option A
coalesce none a = some a
coalesce (some b) a = some b

abbrev pub in_scope : OutboxConfig → OutboxEvent → Bool
in_scope cfg e = elim cfg.event_ids [ none ↦ true | some ids ↦ elem e.id ids ]

abbrev pub reclaimable : OutboxConfig → ℕ → OutboxEvent → Bool
reclaimable cfg now e =
    ((is_processing e.status && due e.lease_expires_at now)
      || (is_pending e.status && leb cfg.max_attempts e.attempts))
    && in_scope cfg e

abbrev pub exhausted : OutboxConfig → OutboxEvent → Bool
exhausted cfg e = leb cfg.max_attempts e.attempts

-- What ends a lease without a publication: FAILED or PENDING by the attempts.
abbrev pub released : OutboxConfig → ℕ → ℕ → Option ErrorCode → OutboxEvent → OutboxEvent
released cfg now delay code e = record e {
  status = if exhausted cfg e then failed else pending;
  next_attempt_at = if exhausted cfg e then none else some (now + delay);
  last_error_code = code;
  lease_owner = none;
  lease_token = none;
  lease_expires_at = none;
  updated_at = now;
}

abbrev pub reclaimed : OutboxConfig → ℕ → OutboxEvent → OutboxEvent
reclaimed cfg now e = record e {
  status = if exhausted cfg e then failed else pending;
  next_attempt_at = if exhausted cfg e then none else some now;
  last_error_code =
      if exhausted cfg e
      then coalesce e.last_error_code outbox_lease_expired
      else e.last_error_code;
  lease_owner = none;
  lease_token = none;
  lease_expires_at = none;
  updated_at = now;
}

unfoldable pub reclaim_expired_leases : OutboxConfig → ℕ → List OutboxEvent → ℕ × List OutboxEvent
reclaim_expired_leases cfg now events = (
  affected (reclaimable cfg now) events,
  update_where (reclaimable cfg now) (reclaimed cfg now) events,
)

abbrev pub claimable : OutboxConfig → ℕ → OutboxEvent → Bool
claimable cfg now e =
    is_pending e.status
    && ltb e.attempts cfg.max_attempts
    && null_or_due e.next_attempt_at now
    && in_scope cfg e

abbrev pub created_before : OutboxEvent → OutboxEvent → Bool
created_before left right =
    ltb left.created_at right.created_at
    || ((left.created_at == right.created_at) && ltb left.id right.id)

abbrev pub claimed : OutboxConfig → ℕ → ℕ → ℕ → OutboxEvent → OutboxEvent
claimed cfg now owner token e = record e {
  status = processing;
  attempts = e.attempts + 1;
  next_attempt_at = none;
  lease_owner = some owner;
  lease_token = some token;
  lease_expires_at = some (now + cfg.lease_duration_ms);
  updated_at = now;
}

-- `ORDER BY "createdAt", id LIMIT 1`. Statements run one after another, so no row is locked.
abbrev pub candidates : OutboxConfig → ℕ → List OutboxEvent → List OutboxEvent
candidates cfg now events = sort_by created_before (filter (claimable cfg now) events)

abbrev pub claim_candidate :
    OutboxConfig
    → ℕ
    → ℕ
    → ℕ
    → List OutboxEvent
    → List OutboxEvent
    → Option ClaimedOutboxEvent × List OutboxEvent
claim_candidate cfg now owner token events [] = (none, events)
claim_candidate cfg now owner token events (e ∷ _) = (
  some (record { id = e.id; topic = e.topic; payload = e.payload; lease_token = token }),
  update_where (λ r. r.id == e.id) (claimed cfg now owner token) events,
)

-- `token` is the UUID that `randomUUID` gives.
unfoldable pub claim_next :
    OutboxConfig → ℕ → ℕ → ℕ → List OutboxEvent → Option ClaimedOutboxEvent × List OutboxEvent
unfolding sort_by
claim_next cfg now owner token events =
    claim_candidate cfg now owner token events (candidates cfg now events)

-- The row of `id` is leased to `owner` by `token`, and the lease has not expired.
abbrev pub holds_lease : ℕ → ℕ → ℕ → ℕ → OutboxEvent → Bool
holds_lease now id owner token e =
    e.id == id
    && is_processing e.status
    && holds_value e.lease_owner owner
    && holds_value e.lease_token token
    && after e.lease_expires_at now

abbrev pub published_by : ℕ → OutboxEvent → OutboxEvent
published_by now e = record e {
  status = published;
  published_at = some now;
  lease_owner = none;
  lease_token = none;
  lease_expires_at = none;
  updated_at = now;
}

unfoldable pub mark_published : ℕ → ℕ → ℕ → ℕ → List OutboxEvent → Bool × List OutboxEvent
mark_published now id owner token events = (
  affected (holds_lease now id owner token) events == 1,
  update_where (holds_lease now id owner token) (published_by now) events,
)

unfoldable pub retry :
    OutboxConfig → ℕ → ℕ → ℕ → ℕ → ErrorCode → List OutboxEvent → Bool × List OutboxEvent
retry cfg now id owner token code events = (
  affected (holds_lease now id owner token) events == 1,
  update_where (holds_lease now id owner token) (released cfg now cfg.retry_delay_ms (some code))
      events,
)
