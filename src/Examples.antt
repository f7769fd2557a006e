-- ===== src/Examples.antt =====
-- Concrete inputs, and the theorems applied to them.
pub mod Inputs
mod Config
mod Auth
mod Cli
mod Command
mod Health
mod Listing
mod Client
mod Gcs
mod Sync
mod Entity
