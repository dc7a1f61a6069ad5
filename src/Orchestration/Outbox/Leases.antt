-- ===== src/Orchestration/Outbox/Leases.antt =====
-- Leases on outbox events.
use vpnplatform.Base.{
  ℕ, ◌≤◌, ◌<◌, ◌≡◌, ◌≢◌, refl, ◌⊎◌, inl, Bool, true, false, Option, none, some, List, [], ◌∷◌,
  arith, All, In, is_some, filter, map, Nodup, elem, subst, sym, In-filter,
}
use vpnplatform.Base.Sort.{In-sort_by}
use vpnplatform.Orchestration.Table.{update_where, All-update_where, map-update_where, In-unique}
use vpnplatform.Orchestration.Outbox.{
  pending, published, failed, ErrorCode, OutboxEvent, OutboxConfig, is_processing, reclaimed,
  released, claimable, claimed, created_before, published_by, candidates, claim_candidate,
  reclaim_expired_leases, claim_next, mark_published, retry,
}

-- A row between two statements: its attempts stay within the limit, it is leased exactly while it
-- is PROCESSING, a PUBLISHED row knows when, and a FAILED one has used up its attempts.
pub record RowOk (cfg : OutboxConfig) (e : OutboxEvent) : Type 0 where
  pub bounded : e.attempts ≤ cfg.max_attempts
  pub owner_leased : is_some e.lease_owner ≡ is_processing e.status
  pub token_leased : is_some e.lease_token ≡ is_processing e.status
  pub expiry_leased : is_some e.lease_expires_at ≡ is_processing e.status
  pub published_known : (e.status ≢ published) ⊎ (is_some e.published_at ≡ true)
  pub failed_exhausted : (e.status ≢ failed) ⊎ (e.attempts ≡ cfg.max_attempts)

abbrev pub ids : List OutboxEvent → List ℕ
ids = map λ e. e.id

pub record TableOk (cfg : OutboxConfig) (events : List OutboxEvent) : Type 0 where
  pub rows : All (RowOk cfg) events
  pub ids_unique : Nodup (ids events)

reclaimed-RowOk :
    (cfg : OutboxConfig) (now : ℕ) (e : OutboxEvent) → RowOk cfg e → RowOk cfg (reclaimed cfg now e)
reclaimed-RowOk cfg now e h = ground arith

released-RowOk :
    (cfg : OutboxConfig) (now delay : ℕ) (code : Option ErrorCode) (e : OutboxEvent)
    → RowOk cfg e
    → RowOk cfg (released cfg now delay code e)
released-RowOk cfg now delay code e h = ground arith

published_by-RowOk :
    (cfg : OutboxConfig) (now : ℕ) (e : OutboxEvent) → RowOk cfg e → RowOk cfg (published_by now e)
published_by-RowOk cfg now e h = ground arith

claimed-RowOk :
    (cfg : OutboxConfig) (now owner token : ℕ) (e : OutboxEvent)
    → e.attempts < cfg.max_attempts
    → RowOk cfg e
    → RowOk cfg (claimed cfg now owner token e)
claimed-RowOk cfg now owner token e room h = ground arith

-- A statement that keeps the rows' ids and their validity keeps the table's.
update_where-TableOk :
    (cfg : OutboxConfig) (p : OutboxEvent → Bool) (f : OutboxEvent → OutboxEvent)
    (events : List OutboxEvent)
    → ((e : OutboxEvent) → (f e).id ≡ e.id)
    → ((e : OutboxEvent) → In e events → p e ≡ true → RowOk cfg e → RowOk cfg (f e))
    → TableOk cfg events
    → TableOk cfg (update_where p f events)
update_where-TableOk cfg p f events same keep h = record {
  rows = All-update_where (RowOk cfg) p f events keep h.rows;
  ids_unique =
      subst Nodup (sym (map-update_where (λ (e : OutboxEvent). e.id) p f events same)) h.ids_unique;
}

-- The candidate is claimable, and no claimable row comes before it.
pub candidates-head :
    (cfg : OutboxConfig) (now : ℕ) (events rest : List OutboxEvent) (e : OutboxEvent)
    → candidates cfg now events ≡ e ∷ rest
    → In e events × (claimable cfg now e ≡ true)
candidates-head cfg now events rest e h = In-filter (claimable cfg now) e events (
    (In-sort_by created_before e (filter (claimable cfg now) events)).0
      (subst (In e) (sym h) (inl refl)))

claim_candidate-TableOk :
    (cfg : OutboxConfig) (now owner token : ℕ) (events found : List OutboxEvent)
    → candidates cfg now events ≡ found
    → TableOk cfg events
    → TableOk cfg (claim_candidate cfg now owner token events found).1
claim_candidate-TableOk cfg now owner token events [] e h = h
claim_candidate-TableOk cfg now owner token events (c ∷ rest) e h =
    let (i, fits) = candidates-head cfg now events rest c e in
    update_where-TableOk cfg _ (claimed cfg now owner token) events (λ r. refl)
      (λ r j same ok.
        claimed-RowOk cfg now owner token r
          (subst (λ x. x.attempts < cfg.max_attempts)
            (In-unique (λ (x : OutboxEvent). x.id) c r events h.ids_unique i j (ground arith))
            (ground arith))
          ok)
      h

-- One statement of the store, or the insertion of a new event by the transaction that causes it.
pub data Step (cfg : OutboxConfig) (events : List OutboxEvent) : List OutboxEvent → Type 0 where
  reclaim : (now : ℕ) → Step cfg events (reclaim_expired_leases cfg now events).1
  claim : (now owner token : ℕ) → Step cfg events (claim_next cfg now owner token events).1
  publish : (now id owner token : ℕ) → Step cfg events (mark_published now id owner token events).1
  give_back :
      (now id owner token : ℕ) (code : ErrorCode)
      → Step cfg events (retry cfg now id owner token code events).1
  insert :
      (e : OutboxEvent)
      → e.status ≡ pending
      → e.attempts ≡ 0
      → e.lease_owner ≡ none
      → e.lease_token ≡ none
      → e.lease_expires_at ≡ none
      → elem e.id (ids events) ≡ false
      → Step cfg events (e ∷ events)

-- Every statement, with any time, owner and token, keeps the table valid.
pub Step-TableOk :
    (cfg : OutboxConfig) (events next : List OutboxEvent)
    → Step cfg events next
    → TableOk cfg events
    → TableOk cfg next
unfolding reclaim_expired_leases claim_next mark_published retry
Step-TableOk cfg events next (reclaim now) h =
    update_where-TableOk cfg _ _ events (λ e. refl) (λ e _ _ ok. reclaimed-RowOk cfg now e ok) h
Step-TableOk cfg events next (claim now owner token) h =
    claim_candidate-TableOk cfg now owner token events _ refl h
Step-TableOk cfg events next (publish now id owner token) h =
    update_where-TableOk cfg _ _ events (λ e. refl) (λ e _ _ ok. published_by-RowOk cfg now e ok) h
Step-TableOk cfg events next (give_back now id owner token code) h =
    update_where-TableOk cfg _ _ events (λ e. refl)
      (λ e _ _ ok. released-RowOk cfg now cfg.retry_delay_ms (some code) e ok) h
Step-TableOk cfg events next (insert e st at o t x fresh) h = record {
  rows = (ground arith, h.rows);
  ids_unique = (fresh, h.ids_unique);
}

pub data Reach (cfg : OutboxConfig) : List OutboxEvent → Type 0 where
  start : Reach cfg []
  then : {s t : List OutboxEvent} → Reach cfg s → Step cfg s t → Reach cfg t

-- From the empty outbox, any sequence of statements and insertions of new events leads to a
-- valid table: ids differ, attempts stay within the limit, an event has a lease exactly while
-- it is PROCESSING, a PUBLISHED event has its time, and a FAILED one has used up its attempts.
pub Reach-TableOk :
    (cfg : OutboxConfig) (events : List OutboxEvent) → Reach cfg events → TableOk cfg events
Reach-TableOk cfg _ start = record { rows = tt; ids_unique = tt }
Reach-TableOk cfg _ (then {s = s} {t = t} r step) =
    Step-TableOk cfg s t step (Reach-TableOk cfg s r)
