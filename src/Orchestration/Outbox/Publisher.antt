-- ===== src/Orchestration/Outbox/Publisher.antt =====
-- `OutboxPublisher.processOne` of apps/worker/src/outbox-publisher.ts, and its loop in
-- apps/worker/src/main.ts. The queue is a function
-- that says whether it takes an event; what other workers do to the table between the claim and
-- the end of the lease is a function on the table. The statements of the store do not throw.
use Prim.Native.Nat.{zero, suc}
use vpnplatform.Base.{ℕ, Bool, true, false, Option, none, some, List, if◌then◌else◌}
use vpnplatform.Orchestration.Outbox.{
  Topic, node_sync_requested, other_topic, ErrorCode, outbox_unsupported_topic,
  outbox_invalid_payload, outbox_publish_failed, NodeSyncCommand, OutboxEvent, OutboxConfig,
  ClaimedOutboxEvent, reclaim_expired_leases, claim_next, mark_published, retry,
}

pub data PublishOutcome : Type 0 where
  idle published_one retried fenced : PublishOutcome

pub data Delivery : Type 0 where
  deliver : NodeSyncCommand → Delivery
  refuse : ErrorCode → Delivery

-- The checks of the topic and of the payload.
abbrev pub delivery : Topic → Option NodeSyncCommand → Delivery
delivery (other_topic _) payload = refuse outbox_unsupported_topic
delivery node_sync_requested none = refuse outbox_invalid_payload
delivery node_sync_requested (some command) = deliver command

-- What the publisher meets: the times of its three statements, the UUID of its lease, the queue,
-- and the other workers.
pub record PublishWorld : Type 0 where
  pub reclaim_at : ℕ
  pub claim_at : ℕ
  pub end_at : ℕ
  pub token : ℕ
  pub takes : ℕ → NodeSyncCommand → Bool
  pub others : List OutboxEvent → List OutboxEvent

-- The outcome, the job that was handed to the queue, and the table.
pub record Processed : Type 0 where
  pub outcome : PublishOutcome
  pub queued : Option (ℕ × NodeSyncCommand)
  pub events : List OutboxEvent

-- The `catch` block.
abbrev pub give_up :
    OutboxConfig → PublishWorld → ℕ → ClaimedOutboxEvent → ErrorCode → List OutboxEvent → Processed
give_up cfg w owner event code events =
    let result = retry cfg w.end_at event.id owner event.lease_token code events in
    record { outcome = if result.0 then retried else fenced; queued = none; events = result.1 }

abbrev pub deliver_event :
    OutboxConfig → PublishWorld → ℕ → ClaimedOutboxEvent → Delivery → List OutboxEvent → Processed
deliver_event cfg w owner event (refuse code) events = give_up cfg w owner event code events
deliver_event cfg w owner event (deliver command) events =
    let result = mark_published w.end_at event.id owner event.lease_token events in
    if w.takes event.id command
    then record {
      outcome = if result.0 then published_one else fenced;
      queued = some (event.id, command);
      events = result.1;
    }
    else give_up cfg w owner event outbox_publish_failed events

abbrev pub process_claimed :
    OutboxConfig → PublishWorld → ℕ → Option ClaimedOutboxEvent → List OutboxEvent → Processed
process_claimed cfg w owner none events = record { outcome = idle; queued = none; events = events }
process_claimed cfg w owner (some event) events =
    deliver_event cfg w owner event (delivery event.topic event.payload) (w.others events)

unfoldable pub process_one : OutboxConfig → PublishWorld → ℕ → List OutboxEvent → Processed
process_one cfg w owner events =
    let result =
      claim_next cfg w.claim_at owner w.token (reclaim_expired_leases cfg w.reclaim_at events).1 in
    process_claimed cfg w owner result.0 result.1

abbrev pub is_idle : PublishOutcome → Bool
is_idle idle = true
is_idle _ = false

-- `while (!aborted)` of the worker up to its first delay, which follows an idle round: whether it
-- comes to one within the rounds given, and the table. Round `n` meets the world `w n`.
unfoldable pub publisher_loop :
    OutboxConfig
    → (ℕ → PublishWorld)
    → ℕ
    → (rounds : ℕ) → List OutboxEvent
    → Bool × List OutboxEvent
publisher_loop cfg w owner zero events = (false, events)
publisher_loop cfg w owner (suc rounds) events =
    let result = process_one cfg (w rounds) owner events in
    let rest = publisher_loop cfg w owner rounds result.events in
    if is_idle result.outcome then (true, result.events) else rest
