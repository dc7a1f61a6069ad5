-- ===== src/Orchestration.antt =====
-- Orchestration over the database: the outbox and the node-sync jobs
-- (packages/orchestration-store/src), their workers (apps/worker/src) and the life cycle of a
-- node (apps/api/src/orchestration). A table is a list of rows; each SQL statement is atomic and
-- reads one time.
pub mod Table
pub mod Outbox
pub mod Database
pub mod NodeSync
pub mod Lifecycle
pub mod Subscriptions
pub mod Devices
pub mod Assignment
