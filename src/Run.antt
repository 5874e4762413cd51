-- ===== src/Run.antt =====
-- The recoverable run: src/assistant_agent/agent/run.
pub mod State
pub mod Consistency
pub mod Items
pub mod Coordinator
pub mod Failures
pub mod Lifecycle
pub mod Capture
mod Calls
pub mod Normalize
pub mod Ready
pub mod Ending
