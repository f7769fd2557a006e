-- ===== src/Examples/Cli.antt =====
-- The theorems on the flags and on backfills, at concrete inputs.
use xero_visma_v.Base.{
  ℕ, ◌≡◌, refl, pos, true, false, not, ◌&&◌, ◌||◌, none, some, List, [], ◌∷◌, codes, ok, leb,
  if◌then◌else◌, arith,
}
use xero_visma_v.Config.{or_default}
use xero_visma_v.Entity.{EntityType, is_date_windowable, reports_default}
use xero_visma_v.Sync.Mode.{SyncMode, reports, params_for_business_window, no_params, fetch_params}
use xero_visma_v.Cli.Resolve.{SyncArgs, resolve_mode, resolve_entities, mode_scope, backfill_chunks}
use xero_visma_v.Cli.Resolve.Chunks.{
  IsTiling, windows_with, backfill_chunks-IsTiling, backfill_chunks-endless,
}
use xero_visma_v.Cli.Resolve.Windows.{resolve_mode-rolling_window}
use xero_visma_v.Cli.Run.{SubRun, backfill_runs}
use xero_visma_v.Cli.Run.Plan.{occurrences, times_pulled, backfill_runs-times_pulled}
use xero_visma_v.Examples.Inputs.{days, days-IsCalendar, two_dates, two_dates-HasLast, settings}

abbrev pub plain_args : SyncArgs ℕ
plain_args = record {
  window_days = none;
  where_clause = none;
  no_window = false;
  business_from = none;
  business_to = none;
  full = false;
  full_with_window = false;
  backfill = none;
  chunk_months = 1;
  reports = false;
  as_of = none;
  entity = [];
  tenant = [];
  dry_run = false;
  local_dir = codes "./out";
  max_concurrent = none;
}

three_chunks : backfill_chunks days 71 30 99 1 ≡ some ((30, 59) ∷ (60, 89) ∷ (90, 99) ∷ [])
unfolding backfill_chunks
three_chunks = refl

backfill_chunks-IsTiling_example :
    (chunks : List (ℕ × ℕ)) × (backfill_chunks days 72 30 99 1 ≡ some chunks)
    × IsTiling days 30 99 chunks
    × ((d : ℕ) → windows_with days d chunks ≡ (if leb 30 d && leb d 99 then 1 else 0))
backfill_chunks-IsTiling_example =
    backfill_chunks-IsTiling days days-IsCalendar 72 30 99 1 (omega arith) (omega arith)
      (omega arith)

backfill_chunks-endless_example : backfill_chunks two_dates 5 false true 1 ≡ none
backfill_chunks-endless_example = backfill_chunks-endless two_dates two_dates-HasLast 5 false 1

abbrev asked : List EntityType
asked = EntityType.accounts ∷ EntityType.invoices ∷ []

backfill_runs-times_pulled_example :
    (runs : List (SubRun days)) × (backfill_runs days 72 30 99 1 asked ≡ some runs)
    × ((e : EntityType) (d : ℕ)
        → times_pulled days e d runs ≡ (
            if not (is_date_windowable e) || (leb 30 d && leb d 99)
            then occurrences e asked
            else 0))
backfill_runs-times_pulled_example =
    backfill_runs-times_pulled days days-IsCalendar 72 30 99 1 asked (omega arith) (omega arith)
      (omega arith)

abbrev window_args : SyncArgs ℕ
window_args = record plain_args { business_from = some 40; business_to = some 60 }

resolve_mode-rolling_window_example :
    (mode : SyncMode ℕ) × (resolve_mode days window_args 100 settings
      ≡ ok (mode, or_default (some 60) 100))
    × (fetch_params days mode EntityType.invoices 7 (or_default (some 60) 100) (pos 3)
        ≡ some (
            if is_date_windowable EntityType.invoices
            then params_for_business_window days 40 (or_default (some 60) 100)
            else no_params))
resolve_mode-rolling_window_example =
    resolve_mode-rolling_window days days-IsCalendar window_args 100 40 settings EntityType.invoices
      7 (pos 3) refl refl refl (omega arith)

abbrev report_args : SyncArgs ℕ
report_args = record plain_args { reports = true; as_of = some 90 }

report_mode : resolve_mode days report_args 100 settings ≡ ok (reports 90, 100)
unfolding resolve_mode
report_mode = refl

report_entities : resolve_entities [] (mode_scope days (reports 90)) ≡ ok reports_default
unfolding resolve_entities mode_scope
report_entities = refl
