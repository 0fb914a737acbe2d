-- ===== src/Ui.antt =====
-- src/desktop_worker/ui/controller.py: the controls of the window that need no display.
pub mod Approvals
