-- ===== src/Eval.antt =====
-- src/desktop_worker/eval/: the tasks of a suite, their oracles, and the runner.
pub mod Oracles
pub mod Trial
pub mod Suite
