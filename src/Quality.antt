-- ===== src/Quality.antt =====
-- src/fleetstream/quality, in parts.
pub mod Rules
pub mod Engine
pub mod Loading
pub mod Splitting
pub mod Verdicts
pub mod Diversion
pub mod Standard
