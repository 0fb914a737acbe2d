-- ===== src/Safety.antt =====
-- The safety package: the emergency stop, the permission policy and its profiles.
pub mod EmergencyStop
pub mod Policy
