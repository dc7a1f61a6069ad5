-- ===== src/Examples/Outbox.antt =====
-- The outbox at concrete inputs: one event, and the worker 70 that leases it under the token 8.
use vpnplatform.Base.{ℕ, ◌≡◌, refl, inl, true, false, none, some, List, [], ◌∷◌, arith, All}
use vpnplatform.Orchestration.Outbox.{
  pending, node_sync_requested, outbox_publish_failed, grant_command, OutboxEvent, OutboxConfig,
  claimed, published_by, reclaim_expired_leases, claim_next, mark_published, retry,
}
use vpnplatform.Orchestration.Outbox.Leases.{
  TableOk, claim, insert, Reach, start, then, Reach-TableOk,
}
use vpnplatform.Orchestration.Outbox.Fencing.{expired_lease_is_fenced}
use vpnplatform.Orchestration.Outbox.Publisher.{
  published_one, PublishWorld, process_one, publisher_loop,
}
use vpnplatform.Orchestration.Outbox.Refinement.{Moved, Step-Moved}
use vpnplatform.Orchestration.Outbox.Rest.{Fair, publisher_rests}

abbrev cfg : OutboxConfig
cfg = record { lease_duration_ms = 100; retry_delay_ms = 10; max_attempts = 3; event_ids = none }

abbrev event : OutboxEvent
event = record {
  id = 1;
  topic = node_sync_requested;
  payload = some (grant_command 5 6 2);
  status = pending;
  attempts = 0;
  next_attempt_at = none;
  lease_owner = none;
  lease_token = none;
  lease_expires_at = none;
  published_at = none;
  last_error_code = none;
  created_at = 1;
  updated_at = 1;
}

abbrev waiting : List OutboxEvent
waiting = event ∷ []

abbrev leased : OutboxEvent
leased = claimed cfg 10 70 8 event

abbrev working : List OutboxEvent
working = leased ∷ []

abbrev delivered : OutboxEvent
delivered = published_by 20 leased

waiting_reached : Reach cfg waiting
waiting_reached = (then) start (insert event refl refl refl refl refl refl)

claims_it : (claim_next cfg 10 70 8 waiting).1 ≡ working
unfolding claim_next
claims_it = refl

publishes_it : (mark_published 20 1 70 8 working) ≡ (true, delivered ∷ [])
unfolding mark_published
publishes_it = refl

waiting-TableOk : TableOk cfg waiting
waiting-TableOk = ground arith

working-TableOk : TableOk cfg working
working-TableOk = ground arith

delivered-TableOk : TableOk cfg (delivered ∷ [])
delivered-TableOk = ground arith

Reach-TableOk_example : TableOk cfg waiting
Reach-TableOk_example = Reach-TableOk cfg waiting waiting_reached

expired_lease_is_fenced_example :
    let reclaimed_events = (reclaim_expired_leases cfg 200 working).1 in
    let claimed_events = (claim_next cfg 210 71 9 reclaimed_events).1 in
    (mark_published 220 1 70 8 reclaimed_events ≡ (false, reclaimed_events))
    × (retry cfg 220 1 70 8 outbox_publish_failed reclaimed_events ≡ (false, reclaimed_events))
    × (mark_published 220 1 70 8 claimed_events ≡ (false, claimed_events))
    × (retry cfg 220 1 70 8 outbox_publish_failed claimed_events ≡ (false, claimed_events))
expired_lease_is_fenced_example =
    expired_lease_is_fenced cfg working leased 200 210 220 70 71 8 9 outbox_publish_failed
      working-TableOk (inl refl) refl refl refl (ground arith)

abbrev world : PublishWorld
world = record {
  reclaim_at = 9;
  claim_at = 10;
  end_at = 20;
  token = 8;
  takes = λ id command. true;
  others = λ t. t;
}

publishes_one : (process_one cfg world 70 waiting).outcome ≡ published_one
unfolding process_one reclaim_expired_leases claim_next mark_published
publishes_one = refl

Step-Moved_example : All (Moved cfg 10 (claim_next cfg 10 70 8 waiting).1) waiting
Step-Moved_example =
    Step-Moved cfg waiting (claim_next cfg 10 70 8 waiting).1 (claim 10 70 8) waiting-TableOk

alone-Fair : (n : ℕ) → Fair cfg world
alone-Fair n t ok = (ok, omega arith)

publisher_rests_example :
    let (rested, next) = publisher_loop cfg (λ n. world) 70 8 waiting in
    (rested ≡ true) × TableOk cfg next
publisher_rests_example =
    publisher_rests cfg (λ n. world) 70 8 waiting alone-Fair waiting-TableOk (omega arith)
