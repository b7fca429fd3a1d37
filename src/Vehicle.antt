-- ===== src/Vehicle.antt =====
-- src/fleetstream/simulator/vehicle.py, in parts.
pub mod Position
pub mod State
pub mod Tick
pub mod Drive
pub mod Physics
pub mod Fleet
