-- ===== src/Examples.antt =====
-- Concrete inputs at which the theorems apply, and runs of the definitions.
mod Health
mod Access
mod NodeAgent
mod Outbox
mod NodeSync
mod Lifecycle
mod Subscriptions
mod Auth
mod Devices
mod AgentState
