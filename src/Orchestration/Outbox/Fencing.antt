-- ===== src/Orchestration/Outbox/Fencing.antt =====
-- Who may end a lease on an outbox event.
use vpnplatform.Base.{
  ℕ, ◌≡◌, ◌≢◌, refl, ◌⊎◌, inl, inr, Bool, true, false, some, List, [], ◌∷◌, arith, ◌==◌, All, In,
  In-All, All-tabulate, subst, sym, ◌∙◌, Bool-cases,
}
use vpnplatform.Orchestration.Table.{
  All-update_where, In-unique, update_where-All, update_where-none, affected_unique,
  In-update_where_hit, In-update_where_miss,
}
use vpnplatform.Orchestration.Outbox.{
  OutboxStatus, published, failed, ErrorCode, OutboxEvent, OutboxConfig, reclaimable, reclaimed,
  released, claimed, holds_lease, published_by, candidates, claim_candidate, reclaim_expired_leases,
  claim_next, mark_published, retry, in_scope, due, claimable,
}
use vpnplatform.Orchestration.Outbox.Leases.{
  RowOk, TableOk, Step, reclaim, claim, publish, give_back, insert, candidates-head,
}

abbrev id_of : OutboxEvent → ℕ
id_of e = e.id

-- The row of `id` is not leased by `token`.
abbrev pub NotHeld : ℕ → ℕ → OutboxEvent → Type 0
NotHeld id token e = e.id ≡ id → e.lease_token ≢ some token

NotHeld-holds_lease :
    (now id owner token : ℕ) (e : OutboxEvent)
    → NotHeld id token e
    → holds_lease now id owner token e ≡ false
NotHeld-holds_lease now id owner token e h = elim (Bool-cases (e.id == id)) [
  | inl same ↦ ground (arith, h (ground arith))
  | inr other ↦ ground arith
]

-- Without the lease, publishing and giving back are refused and change nothing.
fenced :
    (cfg : OutboxConfig) (now id owner token : ℕ) (code : ErrorCode) (events : List OutboxEvent)
    → All (NotHeld id token) events
    → (mark_published now id owner token events ≡ (false, events))
      × (retry cfg now id owner token code events ≡ (false, events))
unfolding mark_published retry
fenced cfg now id owner token code events h =
    let shut =
      All-tabulate (λ (e : OutboxEvent). holds_lease now id owner token e ≡ false) events
        (λ e i.
          NotHeld-holds_lease now id owner token e (In-All (NotHeld id token) e events h i)) in
    (
      ground (
        arith,
        update_where-none (holds_lease now id owner token) (published_by now) events shut,
      ),
      ground (
        arith,
        update_where-none (holds_lease now id owner token)
            (released cfg now cfg.retry_delay_ms (some code)) events shut,
      ),
    )

reclaim-NotHeld :
    (cfg : OutboxConfig) (now id token : ℕ) (e : OutboxEvent) (events : List OutboxEvent)
    → TableOk cfg events
    → In e events
    → e.id ≡ id
    → in_scope cfg e ≡ true
    → e.lease_token ≡ some token
    → due e.lease_expires_at now ≡ true
    → All (NotHeld id token) (reclaim_expired_leases cfg now events).1
unfolding reclaim_expired_leases
reclaim-NotHeld cfg now id token e events ok i same scope leased expired =
    let valid = In-All (RowOk cfg) e events ok.rows i in
    update_where-All (NotHeld id token) (reclaimable cfg now) (reclaimed cfg now) events
      (λ r _ _ _. ground arith)
      (λ r j kept named.
        let one = In-unique id_of r e events ok.ids_unique j i (named ∙ sym same) in
        absurd (ground (arith, subst (λ x. reclaimable cfg now x ≡ false) one kept)))

claim-NotHeld :
    (cfg : OutboxConfig) (now owner id token token2 : ℕ) (events found : List OutboxEvent)
    → token ≢ token2
    → All (NotHeld id token) events
    → All (NotHeld id token) (claim_candidate cfg now owner token2 events found).1
claim-NotHeld cfg now owner id token token2 events [] other h = h
claim-NotHeld cfg now owner id token token2 events (c ∷ rest) other h =
    All-update_where (NotHeld id token) (λ r. r.id == c.id) (claimed cfg now owner token2) events
      (λ r _ _ _ _ same. ground arith) h

-- A worker whose lease has expired is fenced off: in a valid table, once an event in the
-- store's scope was reclaimed, and also after a claim under another token, neither publishing
-- nor giving back by the old token is accepted, at any time, and neither changes a row.
pub expired_lease_is_fenced :
    (cfg : OutboxConfig) (events : List OutboxEvent) (e : OutboxEvent)
    (now later even_later owner owner2 token token2 : ℕ) (code : ErrorCode)
    → TableOk cfg events
    → In e events
    → in_scope cfg e ≡ true
    → e.lease_token ≡ some token
    → due e.lease_expires_at now ≡ true
    → token ≢ token2
    → let reclaimed_events = (reclaim_expired_leases cfg now events).1 in
      let claimed_events = (claim_next cfg later owner2 token2 reclaimed_events).1 in
      (mark_published even_later e.id owner token reclaimed_events ≡ (false, reclaimed_events))
      × (retry cfg even_later e.id owner token code reclaimed_events ≡ (false, reclaimed_events))
      × (mark_published even_later e.id owner token claimed_events ≡ (false, claimed_events))
      × (retry cfg even_later e.id owner token code claimed_events ≡ (false, claimed_events))
unfolding claim_next
expired_lease_is_fenced cfg events e now later even_later owner owner2 token token2 code ok i scope
      leased expired other =
    let t1 = (reclaim_expired_leases cfg now events).1 in
    let h1 = reclaim-NotHeld cfg now e.id token e events ok i refl scope leased expired in
    let h2 =
      claim-NotHeld cfg later owner2 e.id token token2 t1 (candidates cfg later t1) other h1 in
    let f1 = fenced cfg even_later e.id owner token code t1 h1 in
    let f2 =
      fenced cfg even_later e.id owner token code (claim_next cfg later owner2 token2 t1).1 h2 in
    (f1.0, f1.1, f2.0, f2.1)

-- In a valid table, publishing is accepted exactly by who holds an unexpired lease on the
-- event, and then the event is PUBLISHED without a lease; otherwise no row changes.
pub mark_published_outcome :
    (cfg : OutboxConfig) (events : List OutboxEvent) (now id owner token : ℕ)
    → TableOk cfg events
    → let (accepted, next) = mark_published now id owner token events in
      ((accepted ≡ true)
        × ((e : OutboxEvent) × In e events
            × (holds_lease now id owner token e ≡ true)
            × In (published_by now e) next))
      ⊎ ((accepted ≡ false)
          × All (λ e. holds_lease now id owner token e ≡ false) events
          × (next ≡ events))
unfolding mark_published
mark_published_outcome cfg events now id owner token ok =
    let p = holds_lease now id owner token in
    elim (affected_unique id_of p id events (λ r h. ground arith) ok.ids_unique) [
      | inl (one, (e, i, h)) ↦
          inl (ground arith, (e, i, h, In-update_where_hit p (published_by now) e events i h))
      | inr (nobody, h) ↦ inr (ground arith, h, (update_where-none p (published_by now) events h).0)
    ]

-- The holder of an unexpired lease ends it by publishing or by giving the event back.
pub holder_accepted :
    (cfg : OutboxConfig) (events : List OutboxEvent) (e : OutboxEvent) (now id owner token : ℕ)
    (code : ErrorCode)
    → TableOk cfg events
    → In e events
    → holds_lease now id owner token e ≡ true
    → ((mark_published now id owner token events).0 ≡ true)
      × In (published_by now e) (mark_published now id owner token events).1
      × ((retry cfg now id owner token code events).0 ≡ true)
      × In
          (released cfg now cfg.retry_delay_ms (some code) e)
          (retry cfg now id owner token code events).1
unfolding mark_published retry
holder_accepted cfg events e now id owner token code ok i h =
    let p = holds_lease now id owner token in
    elim (affected_unique id_of p id events (λ r q. ground arith) ok.ids_unique) [
      | inl (one, _) ↦ (
        ground arith,
        In-update_where_hit p (published_by now) e events i h,
        ground arith,
        In-update_where_hit p (released cfg now cfg.retry_delay_ms (some code)) e events i h,
      )
      | inr (_, nobody) ↦ absurd (ground (arith, In-All (λ r. p r ≡ false) e events nobody i))
    ]

abbrev is_final : OutboxStatus → Bool
is_final published = true
is_final failed = true
is_final _ = false

claim_candidate-final :
    (cfg : OutboxConfig) (now owner token : ℕ) (events found : List OutboxEvent) (e : OutboxEvent)
    → candidates cfg now events ≡ found
    → TableOk cfg events
    → In e events
    → is_final e.status ≡ true
    → In e (claim_candidate cfg now owner token events found).1
claim_candidate-final cfg now owner token events [] e found ok i f = i
claim_candidate-final cfg now owner token events (c ∷ rest) e found ok i f =
    let (j, fits) = candidates-head cfg now events rest c found in
    In-update_where_miss (λ r. r.id == c.id) (claimed cfg now owner token) e events i
      (elim (Bool-cases (e.id == c.id)) [
        | inl same ↦
            let one = In-unique id_of e c events ok.ids_unique i j (ground arith) in
            absurd (ground (arith, subst (λ x. claimable cfg now x ≡ true) (sym one) fits))
        | inr other ↦ other
      ])

-- In a valid table a PUBLISHED or FAILED event is never changed again, by any statement.
pub Step-final :
    (cfg : OutboxConfig) (events next : List OutboxEvent) (e : OutboxEvent)
    → TableOk cfg events
    → Step cfg events next
    → In e events
    → is_final e.status ≡ true
    → In e next
unfolding reclaim_expired_leases claim_next mark_published retry
Step-final cfg events next e ok (reclaim now) i f =
    In-update_where_miss _ (reclaimed cfg now) e events i (ground arith)
Step-final cfg events next e ok (claim now owner token) i f =
    claim_candidate-final cfg now owner token events _ e refl ok i f
Step-final cfg events next e ok (publish now id owner token) i f =
    In-update_where_miss _ (published_by now) e events i (ground arith)
Step-final cfg events next e ok (give_back now id owner token code) i f =
    In-update_where_miss _ (released cfg now cfg.retry_delay_ms (some code)) e events i
      (ground arith)
Step-final cfg events next e ok (insert _ _ _ _ _ _ _) i f = inr i
