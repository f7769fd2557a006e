-- ===== src/Lib.antt =====
-- A verification library for the raw uploader of xero_visma_v2: the program under core/crates that
-- fetches accounting records from the Xero API and writes the bytes, unchanged, to a bucket.
--
-- The program is a command line (xero-cli) over a job (xero-sync), which asks a client
-- (xero-client) for pages and hands them to a sink (xero-gcs); xero-common holds the entities and
-- the settings. The flags of `sync` resolve to a mode, the tenants and the entities; a backfill
-- becomes several runs, one for each chunk of its range; a run fans out over (tenant, entity)
-- units, each of which fetches its pages under the mode's parameters and writes every page, with
-- metadata and a sidecar, under a key of its own; its outcomes make up the manifest.
--
-- Files, and what of core/crates they are about:
--   Base: text, decimal numbers, lists, results and sorted maps: what the program uses of Rust.
--   Foreign: chrono and serde_json as parameters; Foreign/Laws says what theorems assume of them.
--   Errors: xero-common/src/error.rs and xero-gcs/src/error.rs.
--   Entity: xero-common/src/types.rs. `arms` are the arms of `from_str`, `discriminant` is what the
--     derived equality compares. Spelling, Sets and Equality are its theorems.
--   Auth: xero-auth: the token cache of a connection (`fetch_token`) and the connections by tenant;
--     the token server and its clock are a parameter.
--   Config: xero-common/src/config.rs, each from_map over the entries of the environment:
--     `gcs_config` here, the custom connections in Connections, `sync_config` in Settings and
--     `app_config` in App. The function that reads an explicit and a numbered connection is shared
--     (`block_of`).
--   Client: xero-client. Retry and RateLimit are retry.rs and rate_limit.rs; Http is the network
--     and what a call changes: requests sent, the limiter, the sleeps. Request has the five request
--     loops of lib.rs as one `send_loop` with a `Policy` for what differs; Query has the query
--     parameters, Fetch the calls that send one request, Pages the loops over page numbers
--     (`fetch_raw_numbered` is fetch_raw_pages without Journals), Pages/Journals the loop over
--     offsets and `fetch_raw_pages`. Window has DateWindow and the queries for one, Records the
--     dates of a record and the filters over them, Listing the calls that return records (`fetch`,
--     `fetch_with_extras`, `fetch_by_business_date`). RateLimit/Tasks has tasks that share a
--     limiter, one step between two suspensions.
--   Gcs: xero-gcs. Keys is key.rs with the keys of manifests and sidecars, Meta is meta.rs, Sink is
--     sink.rs: `resolve_within_root` on path components, and in Sink/Writes both sinks over a store
--     whose writes may be refused. Store sees a sink as a map from keys to texts: `IsStore` is what
--     the job relies on, and the bucket fills it.
--   Sync: xero-sync. Mode and Report are mode.rs and report.rs, Job has run_entity, run_report and
--     run_unit of lib.rs, Pump the fan-out of SyncJob::run as a step relation, Pump/Order its
--     outcomes as a bag, and Run joins them.
--   Cli: xero-cli. Resolve is resolve.rs; Run has the overrides, the sub-runs of a backfill
--     (`backfill_runs`) and their merge, of sync.rs. Command has `run`: `prepare` up to the job,
--     `sub_runs` the calls of it, `finish` and `report_summary` its end. Health is health.rs.
--   Examples: concrete inputs, and the theorems applied to them.
--
-- State is passed explicitly. A call of the client takes a World and returns an Option: nothing
-- stands for a wait on the limiter that this model does not schedule, and for a panic. Errors are
-- values of a result type. Text is a list of code points.
--
-- Bounds and fuel. A request loop has fuel 6: one attempt and five retries. A loop over pages has
-- fuel cap + 1, since a round either ends or raises the page number or the number of pages, and
-- stops past the cap; page numbers wrap at 2 ^ 32. `backfill_chunks` has fuel for each day of its
-- range and one more, since a chunk starts on a later day than the one before. Record counts are
-- unbounded where the program has i64 sums.
--
-- Not modelled: how the job shares the token caches of xero-auth (it takes the token of a tenant as
-- a function), the entry point, the parsing of flags by clap, the reading of the environment and of
-- a .env file, logging and printing, and everything outside core/crates (warehouse SQL, Python,
-- deployment), which is in other languages.
pub mod Auth
pub mod Base
pub mod Cli
pub mod Client
pub mod Config
pub mod Entity
pub mod Errors
pub mod Examples
pub mod Foreign
pub mod Gcs
pub mod Sync
