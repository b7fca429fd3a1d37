-- ===== src/Silver.antt =====
-- src/fleetstream/streaming/silver_transform.py, in parts.
pub mod Rows
pub mod Dedupe
pub mod Newest
pub mod Write
pub mod Merge
pub mod Enrichment
pub mod Batches
pub mod Latest
pub mod Counting
pub mod Stream
pub mod Sequence
pub mod Unique
pub mod Current
pub mod Distinct
