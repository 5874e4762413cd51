-- ===== src/Context.antt =====
-- What the model is sent: src/assistant_agent/agent/context.
pub mod Window
pub mod Blocks
pub mod Conversation
pub mod Compaction
pub mod Session
