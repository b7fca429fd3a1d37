-- ===== src/Producer.antt =====
-- src/fleetstream/simulator/producer.py, in parts.
pub mod Loop
pub mod Exit
pub mod Program
pub mod Command
