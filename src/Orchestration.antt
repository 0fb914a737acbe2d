-- ===== src/Orchestration.antt =====
-- src/desktop_worker/orchestration/: the roles' handoffs and the coordinator.
pub mod Schema
pub mod Coordinator
pub mod Roles
