-- ===== src/Loop.antt =====
-- src/desktop_worker/loop/: the observe-plan-act-verify loop.
pub mod Observation
pub mod Step
pub mod Verify
pub mod Recovery
pub mod Progress
pub mod Run
