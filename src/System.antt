-- ===== src/System.antt =====
-- The runtime as a whole: every transaction that writes agents or tasks, in any order.
pub mod Ordered
pub mod Moves
pub mod Commit
pub mod Routes
pub mod Inserts
pub mod Submits
pub mod Steps
pub mod Order
pub mod Completed
pub mod Finished
pub mod Letters
pub mod Mourning
pub mod Silent
pub mod Lapses
pub mod Runs
pub mod Drain
pub mod Remaining
pub mod Ready
pub mod Progress
