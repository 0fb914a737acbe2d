-- ===== src/Schema.antt =====
-- The schema package: structured actions and the records of their results.
pub mod Actions
pub mod Results
