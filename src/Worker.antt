-- ===== src/Worker.antt =====
-- The Sandbox Worker: src/sandbox_worker.
pub mod EventLog
