-- ===== src/Client.antt =====
-- core/crates/xero-client: rate limiting, retries, queries and pagination.
pub mod Retry
pub mod RateLimit
pub mod Http
pub mod Request
pub mod Query
pub mod Fetch
pub mod Window
pub mod Records
pub mod Listing
pub mod Pages
