-- ===== src/Cli/Resolve/Windows.antt =====
-- `resolve_mode` of core/crates/xero-cli/src/resolve.rs with the windows of xero-sync/src/mode.rs.
use xero_visma_v.Base.{
  ◌+◌, ◌-◌, ◌≤◌, ◌≡◌, ap, ◌∙◌, false, none, some, ℤ, pos, ◌+ℤ◌, sub_ℕ, ok, if◌then◌else◌, arith,
}
use xero_visma_v.Foreign.{Time, Chrono}
use xero_visma_v.Foreign.Laws.{IsCalendar}
use xero_visma_v.Config.{or_default, SyncConfig}
use xero_visma_v.Entity.{EntityType, is_date_windowable}
use xero_visma_v.Sync.Mode.{
  SyncMode, rolling_full, no_params, rolling_window, params_for_business_window, fetch_params,
}
use xero_visma_v.Sync.Mode.Laws.{span, rolling_window_lem, fetch_params_window}
use xero_visma_v.Cli.Resolve.{SyncArgs, business_window, resolve_window, resolve_mode}

module _ (C : Chrono) (L : IsCalendar C) where
  -- The number of days that `resolve_mode` computes.
  abbrev pub days_between : C.Date → C.Date → ℤ
  days_between from to = sub_ℕ (C.day to) (C.day from) +ℤ pos 1

  days_between_lem :
      (from to : C.Date)
      → C.day from ≤ C.day to
      → span (days_between from to) ≡ C.day to - C.day from + 1
  days_between_lem from to h = ground arith

  rolling_window_exact :
      (from to : C.Date)
      → C.day from ≤ C.day to
      → rolling_window C to (days_between from to) ≡ some (from, to)
  rolling_window_exact from to h =
      let count = days_between_lem from to h in
      let (start, found, reaches) =
        rolling_window_lem C L to (days_between from to) (rw count (omega arith)) in
      let same : start ≡ from = L.day_injective start from (omega (arith, reaches, count, h)) in
      found ∙ ap (λ d. some (d, to)) same

  -- Without `--reports` and `--where`, `--business-from` with an end date that is not before it
  -- (`--business-to`, or the run date) resolves to a mode and an anchor under which a date-
  -- windowable entity is fetched for exactly the business dates from the one to the other, and any
  -- other entity with no filter.
  pub resolve_mode-rolling_window :
      (args : SyncArgs C.Date) (run_date from : C.Date) (cfg : SyncConfig) (e : EntityType)
      (now : Time) (days : ℤ)
      → args.reports ≡ false
      → args.where_clause ≡ none
      → args.business_from ≡ some from
      → C.day from ≤ C.day (or_default args.business_to run_date)
      → (mode : SyncMode C.Date) × (resolve_mode C args run_date cfg
          ≡ ok (mode, or_default args.business_to run_date))
        × (fetch_params C mode e now (or_default args.business_to run_date) days
            ≡ some (
                if is_date_windowable e
                then params_for_business_window C from (or_default args.business_to run_date)
                else no_params))
  unfolding resolve_mode resolve_window business_window
  resolve_mode-rolling_window args run_date from cfg e now days no_reports no_where starts h =
      let to = or_default args.business_to run_date in
      (
        rolling_full (days_between from to),
        rw no_reports (rw no_where (rw starts (ground arith))),
        (fetch_params_window C e now to from to days (days_between from to)
            (rolling_window_exact from to h)).0,
      )
