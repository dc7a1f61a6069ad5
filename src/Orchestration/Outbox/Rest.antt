-- ===== src/Orchestration/Outbox/Rest.antt =====
-- The loop of the publisher in apps/worker/src/main.ts, which waits when a round is idle, reaches
-- such a round.
use Prim.Native.Nat.{zero, suc}
use vpnplatform.Base.{
  ℕ, ◌≤◌, ◌<◌, ◌≡◌, refl, ◌⊎◌, inl, inr, true, Option, none, some, List, arith, Bool-cases,
}
use vpnplatform.Orchestration.Outbox.{
  OutboxEvent, OutboxConfig, ClaimedOutboxEvent, candidates, claim_next, reclaim_expired_leases,
}
use vpnplatform.Orchestration.Outbox.Leases.{TableOk, Step-TableOk, reclaim, claim}
use vpnplatform.Orchestration.Outbox.Publisher.{
  idle, delivery, PublishWorld, process_claimed, process_one, is_idle, publisher_loop,
}
use vpnplatform.Orchestration.Outbox.Progress.{
  total, reclaim-total, claim_candidate-total, deliver_event-total, deliver_event-TableOk,
}

claim_next-total :
    (cfg : OutboxConfig) (now owner token : ℕ) (events : List OutboxEvent)
    → TableOk cfg events
    → let (got, next) = claim_next cfg now owner token events in
      (got ≡ none) ⊎ (total cfg next < total cfg events)
unfolding claim_next
claim_next-total cfg now owner token events h =
    claim_candidate-total cfg now owner token events (candidates cfg now events) refl h

-- The other workers keep the table valid, and move events along their lives only.
abbrev pub Fair : OutboxConfig → PublishWorld → Type 0
Fair cfg w =
    (t : List OutboxEvent)
    → TableOk cfg t
    → TableOk cfg (w.others t) × (total cfg (w.others t) ≤ total cfg t)

process_claimed-progress :
    (cfg : OutboxConfig) (w : PublishWorld) (owner : ℕ) (got : Option ClaimedOutboxEvent)
    (events before : List OutboxEvent)
    → Fair cfg w
    → TableOk cfg events
    → (got ≡ none) ⊎ (total cfg events < total cfg before)
    → let result = process_claimed cfg w owner got events in
      TableOk cfg result.events
      × ((result.outcome ≡ idle) ⊎ (total cfg result.events < total cfg before))
process_claimed-progress cfg w owner none events before fair ok less = (ok, inl refl)
process_claimed-progress cfg w owner (some event) events before fair ok less =
    let (kept, calm) = fair events ok in
    let d = delivery event.topic event.payload in
    let fewer : total cfg events < total cfg before = elim less [
      | inl absurd_none ↦ cc
      | inr lt ↦ lt
    ] in
    (
      deliver_event-TableOk cfg w owner event d (w.others events) kept,
      inr (ground (arith, deliver_event-total cfg w owner event d (w.others events), calm, fewer)),
    )

process_one-progress :
    (cfg : OutboxConfig) (w : PublishWorld) (owner : ℕ) (events : List OutboxEvent)
    → Fair cfg w
    → TableOk cfg events
    → let result = process_one cfg w owner events in
      TableOk cfg result.events
      × ((result.outcome ≡ idle) ⊎ (total cfg result.events < total cfg events))
unfolding process_one
process_one-progress cfg w owner events fair ok =
    let ready = (reclaim_expired_leases cfg w.reclaim_at events).1 in
    let ready_ok = Step-TableOk cfg events ready (reclaim w.reclaim_at) ok in
    let (got, next) = claim_next cfg w.claim_at owner w.token ready in
    let next_ok = Step-TableOk cfg ready next (claim w.claim_at owner w.token) ready_ok in
    let at_most = reclaim-total cfg w.reclaim_at events in
    process_claimed-progress cfg w owner got next events fair next_ok
      (elim (claim_next-total cfg w.claim_at owner w.token ready ready_ok) [
        | inl e ↦ inl e
        | inr lt ↦ inr (omega (arith, lt, at_most))
      ])

-- The publisher comes to rest: on a valid table, where the other workers keep it valid and, while an
-- event is delivered, neither put events back nor leave new ones to do, its loop reaches an idle
-- round within one round more than the statements that the table's events have left, and leaves a
-- valid table.
pub publisher_rests :
    (cfg : OutboxConfig) (w : ℕ → PublishWorld) (owner rounds : ℕ) (events : List OutboxEvent)
    → ((n : ℕ) → Fair cfg (w n))
    → TableOk cfg events
    → total cfg events < rounds
    → let (rested, next) = publisher_loop cfg w owner rounds events in
      (rested ≡ true) × TableOk cfg next
unfolding publisher_loop
publisher_rests cfg w owner zero events fair ok fuel = absurd (omega arith)
publisher_rests cfg w owner (suc rounds) events fair ok fuel =
    let (kept, moved) = process_one-progress cfg (w rounds) owner events (fair rounds) ok in
    elim (Bool-cases (is_idle (process_one cfg (w rounds) owner events).outcome)) [
      | inl y ↦ rw y (refl, kept)
      | inr n ↦
          let less : total cfg (process_one cfg (w rounds) owner events).events < total cfg events =
            elim moved [ inl e ↦ absurd (ground (arith, e, n)) | inr lt ↦ lt ] in
          rw n (publisher_rests cfg w owner rounds _ fair kept (omega (arith, less, fuel)))
    ]
