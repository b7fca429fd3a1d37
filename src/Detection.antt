-- ===== src/Detection.antt =====
-- The corruptions of src/fleetstream/simulator/generator.py against the rules of
-- src/fleetstream/quality/rules.yml.
pub mod Sql
pub mod Wire
pub mod Caught
pub mod Quarantine
pub mod Clean
