-- ===== src/Tools.antt =====
-- The tools package: the registry of the tools that an action may run.
pub mod Registry
pub mod Arguments
pub mod Builtin
pub mod Hands
