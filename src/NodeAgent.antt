-- ===== src/NodeAgent.antt =====
-- The agent on a VPN node: apps/node-agent/src, and the configuration that it is sent
-- (packages/contracts/src/node-agent.ts).
pub mod Snapshot
pub mod XrayAccess
pub mod Timing
pub mod ClockTrust
pub mod StateFile
pub mod Cycle
