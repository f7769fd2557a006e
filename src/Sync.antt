-- ===== src/Sync.antt =====
-- core/crates/xero-sync: what a run fetches, under which parameters, and where it puts it.
pub mod Mode
pub mod Report
pub mod Job
pub mod Pump
pub mod Run
