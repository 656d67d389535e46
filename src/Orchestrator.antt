-- ===== src/Orchestrator.antt =====
-- The orchestrator: sweeps over shared tables. Each sweep is one transaction.
pub mod Reaper
pub mod Queue
pub mod Classify
pub mod Ledger
pub mod Sweeps
