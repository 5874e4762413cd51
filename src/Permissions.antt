-- ===== src/Permissions.antt =====
-- Tool permissions: src/assistant_agent/tools/permissions.py, the decision of tools/policy.py and
-- the gate of tools/context.py.
pub mod Requests
pub mod Policy
pub mod Gate
