-- ===== src/Health.antt =====
-- Health decisions of the control plane: packages/orchestration-store/src/health-decision.ts and
-- operational-policy.ts. A Date is its number of milliseconds since the epoch, and an identifier
-- (a UUID, a source or an independence key) is a number: the code only compares them.
pub mod Policy
pub mod Signals
pub mod Cycle
pub mod Decision
