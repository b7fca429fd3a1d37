-- ===== src/Tests.antt =====
-- Examples: the theorems at concrete inputs, and runs of the code.
mod Samples
mod Simulating
mod Upsert
mod Delivering
mod Streaming
mod Batching
mod Checking
mod Operating
mod Maintaining
mod Verifying
mod Releasing
mod Detecting
mod Reporting
mod Orchestrating
mod Cataloguing
