-- ===== src/Reference.antt =====
-- src/fleetstream/simulator/reference.py, in parts; the geometry of routes is passed on.
mod Geometry
pub mod Tables
pub mod Build
unfoldable pub use Geometry.*
