-- ===== src/Verify.antt =====
-- src/fleetstream/jobs/verify.py: the checks of what the tables hold, and the replay.
pub mod Checks
pub mod Replay
pub mod Contents
pub mod Suite
pub mod Traced
pub mod Passing
pub mod Exit
pub mod Counted
pub mod Conserved
pub mod Verdict
