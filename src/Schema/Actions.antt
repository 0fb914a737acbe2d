-- ===== src/Schema/Actions.antt =====
-- src/desktop_worker/schema/actions.py: the parser of structured actions. The registry of action
-- types is in the module Specs, the proofs in the other children.
pub mod Checks
pub mod Specs
pub mod Parse
pub mod Sound
pub mod Roundtrip
pub mod Rejects
