-- ===== src/Cli/Run.antt =====
-- core/crates/xero-cli/src/sync.rs: the settings of a run, and the sub-runs of a backfill.
pub mod Plan
use xero_visma_v.Base.{
  ℕ, zero, suc, ◌+◌, ℤ, Bool, true, false, not, Option, none, some, List, [], ◌∷◌, ◌++◌, map, Text,
  codes, is_nil, filter, Result, ok, err, if◌then◌else◌, map_option,
}
use xero_visma_v.Base.BTree.{Pairs, get}
use xero_visma_v.Errors.{Error, error_text}
use xero_visma_v.Foreign.{Chrono}
use xero_visma_v.Config.{GcsConfig, gcs_config, default_prefix, SyncConfig, or_default}
use xero_visma_v.Entity.{EntityType, is_date_windowable}
use xero_visma_v.Sync.Mode.{SyncMode, master, backfill}
use xero_visma_v.Sync.Job.{EntityOutcome}
use xero_visma_v.Cli.Resolve.{SyncArgs, backfill_chunks}

module _ (C : Chrono) where
  unfoldable pub apply_overrides : SyncConfig → SyncArgs C.Date → SyncConfig
  apply_overrides cfg args = record cfg {
    window_days = or_default args.window_days cfg.window_days;
    max_concurrent = or_default args.max_concurrent cfg.max_concurrent;
  }

  -- `GcsConfig::from_env`, and for a dry run the raw `GCS_PREFIX` where that fails.
  unfoldable pub resolve_gcs_config : Pairs → SyncArgs C.Date → Result Text GcsConfig
  unfolding gcs_config get
  resolve_gcs_config vars args = elim (gcs_config vars) [
    | ok cfg ↦ ok cfg
    | err e ↦
        if args.dry_run
        then ok (record {
          bucket = [];
          prefix = or_default (get (codes "GCS_PREFIX") vars) default_prefix;
        })
        else err (codes "GCS config error (set GCS_BUCKET)")
  ]

  -- One call of `job.run`.
  pub record SubRun : Type 0 where
    pub anchor : C.Date
    pub entities : List EntityType
    pub mode : SyncMode C.Date

  unfoldable pub full_run : C.Date → List EntityType → List SubRun
  full_run to [] = []
  full_run to (e ∷ es) = record { anchor = to; entities = e ∷ es; mode = master } ∷ []

  unfoldable pub window_runs : List EntityType → List (C.Date × C.Date) → List SubRun
  window_runs es [] = []
  window_runs es ((from, last) ∷ rest) =
      record { anchor = last; entities = es; mode = backfill from last } ∷ window_runs es rest

  -- The calls of `run_backfill`, in order.
  unfoldable pub backfill_runs : ℕ → C.Date → C.Date → ℕ → List EntityType → Option (List SubRun)
  unfolding full_run window_runs backfill_chunks
  backfill_runs fuel from to months entities =
      let windowable = filter is_date_windowable entities in
      let first = full_run to (filter (λ e. not (is_date_windowable e)) entities) in
      if is_nil windowable
      then some first
      else map_option (λ chunks. first ++ window_runs windowable chunks)
          (backfill_chunks C fuel from to months)

pub record RunManifest : Type 0 where
  pub run_id : Text
  pub started_at : Text
  pub finished_at : Text
  pub mode : Text
  pub window_days : Option ℤ
  pub entities : List EntityOutcome

unfoldable pub merge_into : RunManifest → List RunManifest → RunManifest
merge_into merged [] = merged
merge_into merged (m ∷ ms) =
    merge_into
      (record merged { finished_at = m.finished_at; entities = merged.entities ++ m.entities }) ms

-- The merge at the end of `run_backfill`.
unfoldable pub merge : List RunManifest → Result Text RunManifest
unfolding merge_into
merge [] = err (codes "backfill produced no work (no entities or empty date range)")
merge (m ∷ ms) = ok (merge_into m ms)
