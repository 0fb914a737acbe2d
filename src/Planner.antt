-- ===== src/Planner.antt =====
-- src/desktop_worker/loop/claude_cli_planner.py: the planner that asks the claude CLI.
pub mod Answer
pub mod Plan
