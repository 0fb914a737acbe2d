-- ===== src/Actions.antt =====
-- The actions package: the executor of structured actions.
pub mod Executor
