-- ===== src/Orchestration/Outbox/Progress.antt =====
-- The publisher comes to rest: its rounds use up the attempts of the events.
use vpnplatform.Base.{
  ℕ, ◌+◌, ◌*◌, ◌≤◌, ◌<◌, ◌≡◌, refl, ◌⊎◌, inl, inr, Bool, true, none, some, List, [], ◌∷◌, arith,
  ◌==◌, In, subst, Bool-cases,
}
use vpnplatform.Orchestration.Table.{update_where, In-unique}
use vpnplatform.Orchestration.Outbox.{
  ErrorCode, OutboxEvent, OutboxConfig, ClaimedOutboxEvent, reclaimable, reclaimed, released,
  claimable, claimed, holds_lease, published_by, candidates, claim_candidate,
  reclaim_expired_leases, mark_published, retry, outbox_publish_failed,
}
use vpnplatform.Orchestration.Outbox.Leases.{
  TableOk, Step-TableOk, publish, give_back, candidates-head,
}
use vpnplatform.Orchestration.Outbox.Publisher.{
  Delivery, deliver, refuse, PublishWorld, deliver_event,
}
use vpnplatform.Orchestration.Outbox.Refinement.{Life, waiting, held, done, dead, life}

-- How many statements may still move an event.
abbrev pub rank : Life → ℕ
rank (waiting left) = 2 * left + 1
rank (held _ _ _ left) = 2 * left + 2
rank done = 0
rank dead = 0

abbrev pub total : OutboxConfig → List OutboxEvent → ℕ
total cfg [] = 0
total cfg (e ∷ events) = rank (life cfg e) + total cfg events

-- A statement that raises no rank does not raise the total, and lowers it where it lowers one.
update_where-total :
    (cfg : OutboxConfig) (p : OutboxEvent → Bool) (f : OutboxEvent → OutboxEvent)
    (events : List OutboxEvent)
    → ((e : OutboxEvent) → In e events → p e ≡ true → rank (life cfg (f e)) ≤ rank (life cfg e))
    → total cfg (update_where p f events) ≤ total cfg events
update_where-total cfg p f [] h = omega arith
update_where-total cfg p f (e ∷ events) h =
    let rest = update_where-total cfg p f events (λ a i. h a (inr i)) in
    elim (Bool-cases (p e)) [
      | inl y ↦ rw y (omega (arith, rest, h e (inl refl) y))
      | inr n ↦ rw n (omega (arith, rest))
    ]

update_where-total_lt :
    (cfg : OutboxConfig) (p : OutboxEvent → Bool) (f : OutboxEvent → OutboxEvent) (a : OutboxEvent)
    (events : List OutboxEvent)
    → In a events
    → p a ≡ true
    → ((e : OutboxEvent) → In e events → p e ≡ true → rank (life cfg (f e)) < rank (life cfg e))
    → total cfg (update_where p f events) < total cfg events
update_where-total_lt cfg p f a [] i y h = absurd i
update_where-total_lt cfg p f a (e ∷ events) (inl same) y h =
    let hit : p e ≡ true = subst (λ x. p x ≡ true) same y in
    let rest = update_where-total cfg p f events (λ b j z. omega (arith, h b (inr j) z)) in
    rw hit (omega (arith, rest, h e (inl refl) hit))
update_where-total_lt cfg p f a (e ∷ events) (inr i) y h =
    let rest = update_where-total_lt cfg p f a events i y (λ b j. h b (inr j)) in
    elim (Bool-cases (p e)) [
      | inl z ↦ rw z (omega (arith, rest, h e (inl refl) z))
      | inr n ↦ rw n (omega (arith, rest))
    ]

pub reclaim-total :
    (cfg : OutboxConfig) (now : ℕ) (events : List OutboxEvent)
    → total cfg (reclaim_expired_leases cfg now events).1 ≤ total cfg events
unfolding reclaim_expired_leases
reclaim-total cfg now events =
    update_where-total cfg (reclaimable cfg now) (reclaimed cfg now) events (λ e i y. ground arith)

publish-total :
    (cfg : OutboxConfig) (now id owner token : ℕ) (events : List OutboxEvent)
    → total cfg (mark_published now id owner token events).1 ≤ total cfg events
unfolding mark_published
publish-total cfg now id owner token events =
    update_where-total cfg (holds_lease now id owner token) (published_by now) events
      (λ e i y. ground arith)

retry-total :
    (cfg : OutboxConfig) (now id owner token : ℕ) (code : ErrorCode) (events : List OutboxEvent)
    → total cfg (retry cfg now id owner token code events).1 ≤ total cfg events
unfolding retry
retry-total cfg now id owner token code events =
    update_where-total cfg (holds_lease now id owner token)
      (released cfg now cfg.retry_delay_ms (some code)) events (λ e i y. ground arith)

pub claim_candidate-total :
    (cfg : OutboxConfig) (now owner token : ℕ) (events found : List OutboxEvent)
    → candidates cfg now events ≡ found
    → TableOk cfg events
    → let (got, next) = claim_candidate cfg now owner token events found in
      (got ≡ none) ⊎ (total cfg next < total cfg events)
claim_candidate-total cfg now owner token events [] e h = inl refl
claim_candidate-total cfg now owner token events (c ∷ rest) e h =
    let (i, fits) = candidates-head cfg now events rest c e in
    inr (
      update_where-total_lt cfg (λ r. r.id == c.id) (claimed cfg now owner token) c events i
        (ground arith)
        (λ r j y.
          let fits2 =
            subst (λ x. claimable cfg now x ≡ true)
              (In-unique (λ (x : OutboxEvent). x.id) c r events h.ids_unique i j (ground arith))
              fits in
          ground arith))

-- The statement at the end of a round.
pub deliver_event-total :
    (cfg : OutboxConfig) (w : PublishWorld) (owner : ℕ) (event : ClaimedOutboxEvent) (d : Delivery)
    (events : List OutboxEvent)
    → total cfg (deliver_event cfg w owner event d events).events ≤ total cfg events
deliver_event-total cfg w owner event (refuse code) events =
    retry-total cfg w.end_at event.id owner event.lease_token code events
deliver_event-total cfg w owner event (deliver command) events =
    elim (Bool-cases (w.takes event.id command)) [
      | inl y ↦ rw y (publish-total cfg w.end_at event.id owner event.lease_token events)
      | inr n ↦
          rw n
            (retry-total cfg w.end_at event.id owner event.lease_token outbox_publish_failed events)
    ]

pub deliver_event-TableOk :
    (cfg : OutboxConfig) (w : PublishWorld) (owner : ℕ) (event : ClaimedOutboxEvent) (d : Delivery)
    (events : List OutboxEvent)
    → TableOk cfg events
    → TableOk cfg (deliver_event cfg w owner event d events).events
deliver_event-TableOk cfg w owner event (refuse code) events h =
    Step-TableOk cfg events _ (give_back w.end_at event.id owner event.lease_token code) h
deliver_event-TableOk cfg w owner event (deliver command) events h =
    elim (Bool-cases (w.takes event.id command)) [
      | inl y ↦
          rw y (Step-TableOk cfg events _ (publish w.end_at event.id owner event.lease_token) h)
      | inr n ↦ rw n (
          Step-TableOk cfg events _
            (give_back w.end_at event.id owner event.lease_token outbox_publish_failed) h)
    ]
