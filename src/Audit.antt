-- ===== src/Audit.antt =====
-- The audit package: the log of a session, the redaction of secrets, and the pruning of artifacts.
pub mod Redact
pub mod Log
pub mod Retention
