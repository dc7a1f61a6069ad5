-- ===== src/Auth.antt =====
-- The login of apps/api/src/auth.
pub mod PendingLogin
pub mod Completion
pub mod Calls
pub mod Begun
pub mod Confirmed
pub mod SingleUse
pub mod Execution
pub mod Recorded
pub mod Replay
