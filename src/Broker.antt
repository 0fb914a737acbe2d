-- ===== src/Broker.antt =====
-- The broker package: the risk of a command, and the boundary that runs commands.
pub mod Risk
pub mod Cli
pub mod Run
