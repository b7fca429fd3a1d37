-- ===== src/Fleet.antt =====
-- The fleet that src/fleetstream/simulator/reference.py builds: its identifiers, its size, and that its
-- vehicles are fit for the simulator.
pub mod Identity
pub mod Sane
pub mod Punctual
pub mod Drivers
