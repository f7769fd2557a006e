-- ===== src/Gcs.antt =====
-- core/crates/xero-gcs: where objects go, what is attached to them, and how they are written.
pub mod Keys
pub mod Meta
pub mod Sink
pub mod Store
