-- ===== src/SandboxApi.antt =====
-- The HTTP primitives that the services share: src/sandbox_api.
pub mod Grants
