-- ===== src/Sync/Mode/Laws.antt =====
-- The windows of a run, and which entities they filter.
use xero_visma_v.Base.{ℕ, ◌+◌, ◌-◌, ◌≤◌, ◌≡◌, some, ℤ, pos, pos_part, max_ℤ, if◌then◌else◌, arith}
use xero_visma_v.Foreign.{Time, Chrono}
use xero_visma_v.Foreign.Laws.{IsCalendar}
use xero_visma_v.Entity.{EntityType, is_date_windowable}
use xero_visma_v.Sync.Mode.{
  rolling_full, backfill, no_params, rolling_window, params_for_business_window, fetch_params,
}

-- The number of days of a window of `days`: at least one.
abbrev pub span : ℤ → ℕ
span days = pos_part (max_ℤ days (pos 1))

module _ (C : Chrono) (L : IsCalendar C) where
  -- Where the calendar reaches back far enough, a rolling window ends at the run date and has
  -- exactly `days` days, both ends counted, or one if `days` is not positive.
  pub rolling_window_lem :
      (run_date : C.Date) (days : ℤ)
      → span days ≤ C.day run_date + 1
      → (from : C.Date) × (rolling_window C run_date days ≡ some (from, run_date))
        × (C.day from + span days ≡ C.day run_date + 1)
  unfolding rolling_window
  rolling_window_lem run_date days fits =
      let (from, found, back) = L.sub_days_some run_date (span days - 1) (omega arith) in
      (from, rw found, ground arith)

-- Where a rolling window comes to two dates, it and a backfill between those dates filter exactly
-- the entities that take a window of business dates: those get the `where` clause and the two
-- dates, and every other entity is pulled in full, with no filter at all.
pub fetch_params_window :
    (C : Chrono) (e : EntityType) (now : Time) (run_date from to : C.Date) (days window : ℤ)
    → rolling_window C run_date window ≡ some (from, to)
    → (fetch_params C (rolling_full window) e now run_date days
        ≡ some (if is_date_windowable e then params_for_business_window C from to else no_params))
      × (fetch_params C (backfill from to) e now run_date days
          ≡ some (if is_date_windowable e then params_for_business_window C from to else no_params))
unfolding fetch_params
fetch_params_window C e now run_date from to days window h = ground (arith, h)
