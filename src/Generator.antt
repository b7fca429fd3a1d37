-- ===== src/Generator.antt =====
-- src/fleetstream/simulator/generator.py, in parts: the late buffer, the state with its injections,
-- and the event stream.
pub mod Heap
pub mod State
pub mod Stream
pub mod Corruption
pub mod Accounts
pub mod Balance
pub mod Conservation
pub mod Order
pub mod Punctual
pub mod Release
pub mod Origin
