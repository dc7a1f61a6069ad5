-- ===== src/Orchestration/Outbox/Claims.antt =====
-- What reclaiming and claiming do to the outbox.
use vpnplatform.Base.{
  ℕ, ◌≡◌, refl, ◌⊎◌, inl, inr, true, false, ◌&&◌, none, some, List, [], ◌∷◌, arith, ◌==◌, All, In,
  All-tabulate, filter-In, subst, Bool-cases, filter,
}
use vpnplatform.Base.Sort.{sort_by-head-Least, In-sort_by}
use vpnplatform.Orchestration.Table.{
  update_where, update_where-All, update_where-none, In-update_where_hit,
}
use vpnplatform.Orchestration.Outbox.{
  OutboxEvent, OutboxConfig, ClaimedOutboxEvent, reclaimable, reclaimed, claimed, candidates,
  claim_candidate, reclaim_expired_leases, claim_next, claimable, created_before,
}
use vpnplatform.Orchestration.Outbox.Leases.{candidates-head}

-- After reclaiming at a time, no event in the store's scope has a lease that has expired by then,
-- and none waits with its attempts used up: reclaiming again at that time meets no row.
pub reclaim_complete :
    (cfg : OutboxConfig) (now : ℕ) (events : List OutboxEvent)
    → let next = (reclaim_expired_leases cfg now events).1 in
      All (λ e. reclaimable cfg now e ≡ false) next
      × (reclaim_expired_leases cfg now next ≡ (0, next))
unfolding reclaim_expired_leases
reclaim_complete cfg now events =
    let p = reclaimable cfg now in
    let f = reclaimed cfg now in
    let clean =
      update_where-All (λ e. p e ≡ false) p f events (λ e _ h. ground arith) (λ e _ h. h) in
    (clean, ground (arith, update_where-none p f (update_where p f events) clean))

abbrev pub FoundNothing : OutboxConfig → ℕ → List OutboxEvent → Type 0
FoundNothing cfg now events = All (λ e. claimable cfg now e ≡ false) events

-- What a claim returns of its row.
abbrev pub event_of : OutboxEvent → ℕ → ClaimedOutboxEvent
event_of row token = record {
  id = row.id;
  topic = row.topic;
  payload = row.payload;
  lease_token = token;
}

-- The event that was claimed: the oldest claimable one, now leased.
pub record Claims (cfg : OutboxConfig) (now owner token : ℕ) (events next : List OutboxEvent)
    (c : ClaimedOutboxEvent) : Type 0 where
  pub row : OutboxEvent
  pub there : In row events
  pub fits : claimable cfg now row ≡ true
  pub oldest : All (λ e. claimable cfg now e && created_before e row ≡ false) events
  pub event : c ≡ event_of row token
  pub leased : In (claimed cfg now owner token row) next

candidate_oldest :
    (cfg : OutboxConfig) (now : ℕ) (events rest : List OutboxEvent) (c : OutboxEvent)
    → candidates cfg now events ≡ c ∷ rest
    → All (λ e. claimable cfg now e && created_before e c ≡ false) events
candidate_oldest cfg now events rest c found = All-tabulate _ events (λ e i.
    elim (Bool-cases (claimable cfg now e)) [
      | inl fits ↦
          let least =
            sort_by-head-Least created_before (λ a. ground arith) (λ a b d h k. ground arith)
              (λ a b h. ground arith) c rest (filter (claimable cfg now) events) found e
              (filter-In (claimable cfg now) e events i fits) in
          rw (fits, least) refl
      | inr n ↦ rw n refl
    ])

no_candidate :
    (cfg : OutboxConfig) (now : ℕ) (events : List OutboxEvent)
    → candidates cfg now events ≡ []
    → FoundNothing cfg now events
no_candidate cfg now events found = All-tabulate _ events (λ e i.
    elim (Bool-cases (claimable cfg now e)) [
      | inl fits ↦ absurd (
          subst (In e) found (
            (In-sort_by created_before e (filter (claimable cfg now) events)).1
              (filter-In (claimable cfg now) e events i fits)))
      | inr n ↦ n
    ])

claim_candidate_outcome :
    (cfg : OutboxConfig) (now owner token : ℕ) (events found : List OutboxEvent)
    → candidates cfg now events ≡ found
    → let (got, next) = claim_candidate cfg now owner token events found in
      ((got ≡ none) × FoundNothing cfg now events × (next ≡ events))
      ⊎ ((c : ClaimedOutboxEvent) × (got ≡ some c) × Claims cfg now owner token events next c)
claim_candidate_outcome cfg now owner token events [] found =
    inl (refl, no_candidate cfg now events found, refl)
claim_candidate_outcome cfg now owner token events (r ∷ rest) found =
    let (i, fits) = candidates-head cfg now events rest r found in
    inr (
      event_of r token,
      refl,
      record {
        row = r;
        there = i;
        fits = fits;
        oldest = candidate_oldest cfg now events rest r found;
        event = refl;
        leased =
            In-update_where_hit (λ e. e.id == r.id) (claimed cfg now owner token) r events i
              (ground arith);
      },
    )

-- A claim finds nothing exactly when no event is claimable, and then changes nothing; otherwise
-- it leases the oldest claimable event to the owner under the token for the lease's duration.
pub claim_next_outcome :
    (cfg : OutboxConfig) (now owner token : ℕ) (events : List OutboxEvent)
    → let (got, next) = claim_next cfg now owner token events in
      ((got ≡ none) × FoundNothing cfg now events × (next ≡ events))
      ⊎ ((c : ClaimedOutboxEvent) × (got ≡ some c) × Claims cfg now owner token events next c)
unfolding claim_next
claim_next_outcome cfg now owner token events =
    claim_candidate_outcome cfg now owner token events (candidates cfg now events) refl
