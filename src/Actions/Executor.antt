-- ===== src/Actions/Executor.antt =====
-- src/desktop_worker/actions/executor.py: the one place where structured actions are executed:
-- emergency stop, approval, dry run, dispatch, result, audit.
pub mod Dispatch
pub mod Execute
pub mod Ways
pub mod Ending
pub mod Gate
pub mod Nesting
