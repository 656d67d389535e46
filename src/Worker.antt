-- ===== src/Worker.antt =====
-- The worker: what it does to the database between two polls.
pub mod Claim
pub mod Heartbeat
pub mod Checkpoint
pub mod Executor
pub mod Process
pub mod Loop
