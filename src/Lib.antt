-- ===== src/Lib.antt =====
-- Verification of the VPN platform's control plane and node agent.
--
-- The control plane decides which routes and nodes may serve, hands configuration changes to the
-- nodes through an outbox and a table of node-sync jobs, and each node agent enforces the access
-- that its configuration grants. The parts and the files that model them:
--
--   Health         packages/orchestration-store/src/operational-policy.ts and health-decision.ts.
--                  Policy: the schemas of the two policies (parse_health_policy,
--                  parse_capacity_policy for safeParse and parse). Signals: signalRejectionReason
--                  and the loop of aggregateHealthProbeCycle, a fold on a Tally that holds the
--                  loop's Sets and Maps. Cycle: the rest of aggregateHealthProbeCycle. Decision:
--                  evaluateHealthCycle, its branches on_failed, on_success and on_uncertain, and
--                  finishDecision.
--   Access         packages/orchestration-store/src/access-policy.ts.
--   NodeAgent      Snapshot: packages/contracts/src/node-agent.ts. XrayAccess:
--                  apps/node-agent/src/xray-access.ts. Timing: apps/node-agent/src/
--                  security-timing.ts. Cycle: apps/node-agent/src/agent.ts. ClockTrust:
--                  apps/node-agent/src/clock-trust.ts. StateFile: apps/node-agent/src/
--                  simulation-adapter.ts.
--   Orchestration  Table: UPDATE … WHERE on a list of rows. Outbox: packages/orchestration-store/
--                  src/outbox-store.ts, and below it Publisher: apps/worker/src/
--                  outbox-publisher.ts and the publisher's loop in apps/worker/src/main.ts
--                  (publisher_loop). Database: columns of prisma/schema.prisma. NodeSync:
--                  packages/orchestration-store/src/node-sync-store.ts, and below it Processor:
--                  apps/worker/src/node-sync-processor.ts. Lifecycle: apps/api/src/orchestration/
--                  node-lifecycle-manager.service.ts and node-access-control.ts, its
--                  quarantine in Isolation. Subscriptions: packages/orchestration-store/src/
--                  subscription-access-store.ts, in Cancellation (cancelSubscriptionAccess),
--                  Expiry (scheduleExpiredSubscriptionOnNode and
--                  materializeExpiredSubscriptionStatus), Reconciliation and Repair (the two
--                  halves of reconcileOneNode: the changes it finds, and their statements),
--                  Selection (the query of nodes to reconcile), Paging (the cursors) and
--                  Maintenance (materializeExpiredSubscriptions, reconcileAccess).
--                  Devices: apps/api/src/orchestration/device-access-revoker.service.ts.
--                  Assignment: apps/api/src/orchestration/
--                  node-access-grant-scheduler.service.ts.
--   Auth           apps/api/src/auth/pending-login.service.ts. PendingLogin: begin. Completion:
--                  confirm and complete. Execution: apps/api/src/auth/
--                  bot-request-execution.service.ts, its operation a parameter.
--   Base           what the parts share: Boolean tests, lists, sorting.
--   Examples       runs of the definitions and inputs at which the theorems apply.
--
-- A quarantine writes a job and an event; the publisher claims the event and queues its payload;
-- the processor claims and completes the job. A subscription that is cancelled, expires or is
-- reconciled, a device that is revoked and a node that is assigned write their jobs and events to
-- the same tables. Health decisions, access predicates and the agent's functions are pure. Other
-- child modules hold proofs.
--
-- Conventions. A Date is its number of milliseconds since the epoch, and an instant that is parsed
-- from text is none where Date.parse gives NaN. A UUID, key or owner is a number; their order,
-- where the code sorts them, is that of the numbers. Numbers are natural and unbounded, except
-- where a schema bounds them; a difference of instants that is compared with a duration is written
-- as a sum on the other side. A candidate that zod refuses for its shape is none. A table is a list
-- of rows. A statement of a store is atomic, reads one time and does not throw, except in the loops of
-- the maintenance batches, whose world says which of their queries and transactions fail; the several
-- statements of a node-sync claim are one step at one time. Statements run one after another, so locks
-- and SKIP LOCKED have no effect, and interleavings are sequences of steps. Of the triggers of the
-- database, the one that restoring a node to HEALTHY meets is modelled.
-- Times, new ids and lease tokens (randomUUID) are arguments; the queue and the other workers are
-- functions; so are hashes, the check of Telegram's launch data and the limiter, and the JSON of the
-- state file, whose texts are a type. A transaction that throws leaves the store as it was. Loops are
-- structural recursion on a list, except two: publisher_loop takes a number of rounds, and
-- publisher_rests says how many are enough; begin_attempts counts the five attempts of the code.
--
-- Not modelled: the database, zod, BullMQ and logging themselves; the overflow of integer columns;
-- the Xray adapter and the agent's reconcile loop; the reading of numbers and lines in the output of
-- the clock's probe; the health evidence and action stores; the credentials of grants; the
-- API's cabinet, sessions and trials; the bot, the web client, the safe logger, configuration, scripts
-- and process wiring.
pub mod Base
pub mod Health
pub mod Access
pub mod NodeAgent
pub mod Orchestration
pub mod Auth
pub mod Examples
