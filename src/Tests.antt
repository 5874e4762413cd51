-- ===== src/Tests.antt =====
-- Concrete runs, requests and tools, and what the operations do on them.
mod Samples
mod Runs
mod Batches
mod Budgets
pub mod Contexts
mod Tools
