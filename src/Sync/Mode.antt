-- ===== src/Sync/Mode.antt =====
-- core/crates/xero-sync/src/mode.rs: from a mode to what is fetched. The subtraction of a duration
-- panics outside the range of dates: that is `none` here.
pub mod Laws
use xero_visma_v.Base.{
  ℕ, ◌-◌, ◌++◌, ◌∷◌, [], Bool, true, false, Option, none, some, Text, codes, show, show_ℤ, ℤ, pos,
  pos_part, sub_ℕ, max_ℤ, if◌then◌else◌, map_option,
}
use xero_visma_v.Foreign.{Time, Chrono}
use xero_visma_v.Entity.{EntityType, is_date_windowable}
use xero_visma_v.Client.Query.{ExtraQuery, no_extras}
use xero_visma_v.Gcs.Meta.{SyncType, sync_type_str}

pub data SyncMode (Date : Type 0) : Type 0 where
  incremental : SyncMode Date
  open_sweep : Text → SyncMode Date
  rolling_full : ℤ → SyncMode Date
  master : SyncMode Date
  backfill : Date → Date → SyncMode Date
  reports : Date → SyncMode Date

pub record FetchParams : Type 0 where
  pub modified_after : Option Time
  pub extras : ExtraQuery
  pub modified_after_str : Option Text
  pub business_from : Option Text
  pub business_to : Option Text
  pub where_filter : Option Text

-- `FetchParams::default()`
abbrev pub no_params : FetchParams
no_params = record {
  modified_after = none;
  extras = no_extras;
  modified_after_str = none;
  business_from = none;
  business_to = none;
  where_filter = none;
}

module _ (C : Chrono) where
  unfoldable pub sync_type : SyncMode C.Date → SyncType
  sync_type incremental = SyncType.incremental
  sync_type (open_sweep w) = SyncType.open_sweep
  sync_type (rolling_full days) = SyncType.rolling_full
  sync_type master = SyncType.master
  sync_type (backfill from to) = SyncType.backfill
  sync_type (reports as_of) = SyncType.report_snapshot

  unfoldable pub label : SyncMode C.Date → Text
  unfolding sync_type sync_type_str
  label mode = sync_type_str (sync_type mode)

  unfoldable pub window_days : SyncMode C.Date → Option ℤ
  window_days (rolling_full days) = some days
  window_days (backfill from to) = some (sub_ℕ (C.day to) (C.day from))
  window_days incremental = none
  window_days (open_sweep w) = none
  window_days master = none
  window_days (reports as_of) = none

  unfoldable pub incremental_modified_after : Time → ℤ → Time
  incremental_modified_after now days = C.minus_days now days

  -- `[run_date - (days.max(1) - 1), run_date]`
  unfoldable pub rolling_window : C.Date → ℤ → Option (C.Date × C.Date)
  rolling_window run_date days =
      map_option (λ from. (from, run_date))
        (C.checked_sub_days run_date (pos_part (max_ℤ days (pos 1)) - 1))

  date_args : C.Date → Text
  date_args d =
      show_ℤ (C.year d) ++ codes "," ++ show (C.month d) ++ codes "," ++ show (C.day_of_month d)

  unfoldable pub business_date_where : C.Date → C.Date → Text
  unfolding date_args
  business_date_where from to =
      codes "Date >= DateTime("
      ++ date_args from
      ++ codes ") && Date <= DateTime("
      ++ date_args to
      ++ codes ")"

  unfoldable pub params_for_business_window : C.Date → C.Date → FetchParams
  params_for_business_window from to = record {
    modified_after = none;
    extras = record no_extras { where_clause = some (business_date_where from to) };
    modified_after_str = none;
    business_from = some (C.iso from);
    business_to = some (C.iso to);
    where_filter = none;
  }

  unfoldable pub fetch_params :
      SyncMode C.Date → EntityType → Time → C.Date → ℤ → Option FetchParams
  unfolding incremental_modified_after
  fetch_params incremental e now run_date days =
      let after = incremental_modified_after now days in
      some (record no_params {
        modified_after = some after;
        modified_after_str = some (C.rfc3339 after);
      })
  fetch_params (open_sweep w) e now run_date days = some (record no_params {
    extras = record no_extras { where_clause = some w };
    where_filter = some w;
  })
  fetch_params (rolling_full span) e now run_date days =
      if is_date_windowable e
      then map_option (λ (from, to). params_for_business_window from to)
          (rolling_window run_date span)
      else some no_params
  fetch_params (backfill from to) e now run_date days =
      if is_date_windowable e then some (params_for_business_window from to) else some no_params
  fetch_params master e now run_date days = some no_params
  fetch_params (reports as_of) e now run_date days = some no_params
