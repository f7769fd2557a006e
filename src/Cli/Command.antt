-- ===== src/Cli/Command.antt =====
-- `run` of core/crates/xero-cli/src/sync.rs: what it prepares and the calls of the job that follow,
-- with the manifest and the summary at its end. The calls of `job.run` are those of Sync.
pub mod Clients
pub mod Laws
pub mod Totals
use xero_visma_v.Base.{
  ℕ, zero, suc, ◌+◌, ◌%◌, ◌^◌, Bool, true, false, Option, none, some, List, [], ◌∷◌, ◌++◌, map,
  Text, codes, length, Result, ok, err, ◌>>=◌, if◌then◌else◌, map_option, is_none,
}
use xero_visma_v.Base.BTree.{Pairs}
use xero_visma_v.Base.Bags.{sum_of}
use xero_visma_v.Errors.{Error, GcsError, gcs_error_text}
use xero_visma_v.Foreign.{Chrono}
use xero_visma_v.Entity.{EntityType}
use xero_visma_v.Config.{GcsConfig, SyncConfig, or_default}
use xero_visma_v.Config.Connections.{XeroCustomConnectionConfig}
use xero_visma_v.Config.Settings.{sync_config}
use xero_visma_v.Config.App.{AppConfig, app_config}
use xero_visma_v.Auth.{CustomConnectionClient, new_clients}
use xero_visma_v.Gcs.Sink.Writes.{RawSink, new_sink, write_manifest}
use xero_visma_v.Sync.Mode.{SyncMode, label, window_days}
use xero_visma_v.Sync.Job.{EntityOutcome, shortened}
use xero_visma_v.Cli.Resolve.{
  SyncArgs, resolve_tenants, backfill_scope, resolve_entities, resolve_mode, mode_scope,
  parse_range,
}
use xero_visma_v.Cli.Run.{
  apply_overrides, resolve_gcs_config, SubRun, backfill_runs, RunManifest, merge,
}

-- `r.context(text)`, of which the text is shown.
abbrev pub context {ℓ κ} : {E : Type ℓ} {A : Type κ} → Text → Result E A → Result Text A
context text (ok a) = ok a
context text (err e) = err text

-- `tenant_ids`, in the order of the connections; the program's order is that of a hash map.
unfoldable pub tenant_ids : List (Text × CustomConnectionClient) → List Text
tenant_ids clients = map (λ (k, c). k) clients

-- Where the objects go.
pub data Destination : Type 0 where
  to_disk : Text → Destination
  to_bucket : Text → Destination

unfoldable pub org_names : List XeroCustomConnectionConfig → Pairs
org_names [] = []
org_names (c ∷ cs) = elim c.tenant_name [
  | some name ↦ (c.tenant_id, name) ∷ org_names cs
  | none ↦ org_names cs
]

-- What `run` has at hand when it calls the job.
pub record Prepared : Type 0 where
  pub settings : SyncConfig
  pub max_concurrent : ℕ
  pub clients : List (Text × CustomConnectionClient)
  pub tenants : List Text
  pub gcs : GcsConfig
  pub destination : Destination
  pub names : Pairs

module _ (C : Chrono) (vars : Pairs) (args : SyncArgs C.Date) where
  -- `auth_error` is why the credentials of the bucket fail, if they do.
  unfoldable pub build_sink : Option Text → GcsConfig → Result Text Destination
  unfolding new_sink
  build_sink auth_error gcs =
      if args.dry_run
      then ok (to_disk args.local_dir)
      else context (codes "failed to build GCS sink — check GOOGLE_APPLICATION_CREDENTIALS")
          (new_sink auth_error gcs.bucket)
        >>= λ bucket. ok (to_bucket bucket)

  -- The part of `run` before the job is built.
  unfoldable pub prepare : Option Text → Result Text Prepared
  unfolding tenant_ids org_names build_sink apply_overrides resolve_gcs_config
  prepare auth_error =
      context (codes "config error — check your .env file") (app_config vars) >>= (λ cfg.
        context (codes "sync config error") (sync_config vars) >>= (λ read.
          let settings = apply_overrides C read args in
          let clients = new_clients cfg.xero_cc_connections in
          resolve_tenants args.tenant (tenant_ids clients) >>= (λ tenants.
            resolve_gcs_config C vars args >>= (λ gcs. build_sink auth_error gcs >>= (λ destination.
              ok (record {
                settings = settings;
                max_concurrent = or_default args.max_concurrent settings.max_concurrent;
                clients = clients;
                tenants = tenants;
                gcs = gcs;
                destination = destination;
                names = org_names cfg.xero_cc_connections;
              }))))))

  -- A backfill without a run has no manifest to merge.
  abbrev some_work : List (SubRun C) → Result Text (List (SubRun C))
  some_work [] = err (codes "backfill produced no work (no entities or empty date range)")
  some_work (r ∷ rs) = ok (r ∷ rs)

  -- The calls of `job.run`, in order; nothing if a backfill has no end within the fuel.
  unfoldable pub sub_runs : ℕ → C.Date → SyncConfig → Option (Result Text (List (SubRun C)))
  unfolding backfill_runs parse_range resolve_mode resolve_entities mode_scope
  sub_runs fuel run_date settings = elim args.backfill [
    | some spec ↦
        let read : Result Text (List EntityType × (C.Date × C.Date)) =
          resolve_entities args.entity backfill_scope
          >>= (λ es. parse_range C spec >>= λ range. ok (es, range)) in
        elim read [
          | err e ↦ some (err e)
          | ok (es, (from, to)) ↦
              map_option some_work (backfill_runs C fuel from to args.chunk_months es)
        ]
    | none ↦ some (
        resolve_mode C args run_date settings >>= λ (mode, anchor).
        resolve_entities args.entity (mode_scope C mode) >>= λ es.
        ok (record { anchor = anchor; entities = es; mode = mode } ∷ []))
  ]

-- The manifest at the end of `SyncJob::run`, for the outcomes of its units.
unfoldable pub run_manifest :
    (C : Chrono) → Text → Text → Text → SyncMode C.Date → List EntityOutcome → RunManifest
unfolding label window_days
run_manifest C run_id started finished mode outcomes = record {
  run_id = run_id;
  started_at = started;
  finished_at = finished;
  mode = label C mode;
  window_days = window_days C mode;
  entities = outcomes;
}

-- The end of `run`, given the manifests of its calls of the job and their text.
unfoldable pub finish :
    (S : RawSink) (C : Chrono) (text_of : RunManifest → Text)
    → C.Date
    → Text
    → List RunManifest
    → S.State
    → Result Text RunManifest × S.State
unfolding merge write_manifest
finish S C text_of run_date run_id parts s = elim (merge parts) [
  | err e ↦ (err e, s)
  | ok merged ↦
      let (written, after) = write_manifest S C run_date run_id (text_of merged) s in
      (context (codes "failed to write run manifest") written >>= λ u. ok merged, after)
]

-- A line of the summary: endpoint, tenant, pages, records and termination.
pub record SummaryLine : Type 0 where
  pub endpoint : Text
  pub tenant_short : Text
  pub pages : ℕ
  pub records : ℕ
  pub termination : Text

pub record Summary : Type 0 where
  pub run_id : Text
  pub mode : Text
  pub entities : ℕ
  pub lines : List SummaryLine
  pub pages : ℕ
  pub records : ℕ
  pub errors : List (Text × Text × Option Text)

unfoldable pub summary_line : EntityOutcome → SummaryLine
unfolding shortened
summary_line o = record {
  endpoint = o.endpoint;
  tenant_short = shortened 10 o.tenant;
  pages = o.pages;
  records = o.records;
  termination = o.termination;
}

abbrev pub failed_units : List EntityOutcome → List (Text × Text × Option Text)
failed_units [] = []
failed_units (o ∷ os) =
    if is_none o.error then failed_units os else (o.tenant, o.endpoint, o.error) ∷ failed_units os

-- What `report_summary` prints. The pages are summed in a `u32`; the sum of the records, an `i64`,
-- is taken not to overflow.
unfoldable pub report_summary : RunManifest → Summary
unfolding summary_line
report_summary m = record {
  run_id = m.run_id;
  mode = m.mode;
  entities = length m.entities;
  lines = map summary_line m.entities;
  pages = sum_of (λ o. o.pages) m.entities % 2 ^ 32;
  records = sum_of (λ o. o.records) m.entities;
  errors = failed_units m.entities;
}
