-- ===== src/Cli.antt =====
-- core/crates/xero-cli: the `sync` command.
pub mod Resolve
pub mod Run
pub mod Command
pub mod Health
