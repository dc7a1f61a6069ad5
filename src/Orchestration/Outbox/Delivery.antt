-- ===== src/Orchestration/Outbox/Delivery.antt =====
-- What one round of the publisher achieves.
use vpnplatform.Base.{◌≡◌, none, some, In, if◌then◌else◌}
use vpnplatform.Orchestration.Outbox.{
  ErrorCode, OutboxEvent, OutboxConfig, outbox_publish_failed, published_by, released,
}
use vpnplatform.Orchestration.Outbox.Publisher.{
  published_one, retried, Delivery, deliver, refuse, PublishWorld, Processed,
}

-- The event was given back with the error code, and nothing was queued.
abbrev pub GivenBack : OutboxConfig → PublishWorld → OutboxEvent → ErrorCode → Processed → Type 0
GivenBack cfg w row code result =
    (result.outcome ≡ retried)
    × (result.queued ≡ none)
    × In (released cfg w.end_at cfg.retry_delay_ms (some code) row) result.events

-- How the round ends for an event that was leased as `row`.
abbrev pub Ends : OutboxConfig → PublishWorld → OutboxEvent → Delivery → Processed → Type 0
Ends cfg w row (refuse code) result = GivenBack cfg w row code result
Ends cfg w row (deliver command) result =
    if w.takes row.id command
    then (result.outcome ≡ published_one)
      × (result.queued ≡ some (row.id, command))
      × In (published_by w.end_at row) result.events
    else GivenBack cfg w row outbox_publish_failed result
