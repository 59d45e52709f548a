-- ===== src/Manager.antt =====
-- The Sandbox Manager: src/sandbox_manager.
pub mod Authorization
pub mod Backend
pub mod Program
pub mod Settings
pub mod State
