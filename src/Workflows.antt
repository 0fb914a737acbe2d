-- ===== src/Workflows.antt =====
-- src/desktop_worker/workflows: fixed sequences of actions, and the wait for a download.
pub mod Downloads
pub mod Steps
pub mod DesktopFile
pub mod Dialog
pub mod Browser
pub mod Scripts
