-- ===== src/Artifacts.antt =====
-- The Artifact service: src/artifact_service.
pub mod Upload
