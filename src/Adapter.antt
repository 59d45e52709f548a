-- ===== src/Adapter.antt =====
-- The Responses adapter: src/codex_responses_adapter.
pub mod Execution
pub mod Registry
pub mod Response
pub mod Values
pub mod Calls
pub mod Builder
pub mod Csp
