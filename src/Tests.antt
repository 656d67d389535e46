-- ===== src/Tests.antt =====
-- Concrete runs, with the theorems applied to them.
mod Samples
mod Order
mod Routing
mod Ledger
mod Workers
mod Dashboard
mod Sweeps
mod Tools
mod Flags
mod Paths
mod Plans
mod Passes
mod Finish
mod Losses
mod Turn
mod Drain
mod Commands
mod Discovery
