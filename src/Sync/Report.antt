-- ===== src/Sync/Report.antt =====
-- core/crates/xero-sync/src/report.rs: the parameters of a report as of a date.
use xero_visma_v.Base.{
  ◌++◌, ◌∷◌, [], List, map, Option, none, some, Text, codes, text_leb, join, if◌then◌else◌,
}
use xero_visma_v.Base.BTree.{Pairs}
use xero_visma_v.Foreign.{Chrono}
use xero_visma_v.Entity.{EntityType}
use xero_visma_v.Config.{or_default}

pub record ReportSpec : Type 0 where
  pub extra : Pairs
  pub period_key : Text
  pub report_date : Option Text
  pub report_from : Option Text
  pub report_to : Option Text

insert_sorted : Text → List Text → List Text
insert_sorted s [] = s ∷ []
insert_sorted s (t ∷ ts) = if text_leb s t then s ∷ t ∷ ts else t ∷ insert_sorted s ts

-- `pairs.sort()`
unfoldable pub sort : List Text → List Text
unfolding insert_sorted
sort [] = []
sort (t ∷ ts) = insert_sorted t (sort ts)

unfoldable pub params_signature : ReportSpec → Text
unfolding sort
params_signature spec = join (codes "&") (sort (map (λ (k, v). k ++ codes "=" ++ v) spec.extra))

module _ (C : Chrono) where
  month_to_date : C.Date → ReportSpec
  month_to_date as_of =
      let from_str = C.iso (or_default (C.with_day_one as_of) as_of) in
      let as_of_str = C.iso as_of in
      record {
        extra = (codes "fromDate", from_str) ∷ (codes "toDate", as_of_str) ∷ [];
        period_key = from_str ++ codes "_" ++ as_of_str;
        report_date = none;
        report_from = some from_str;
        report_to = some as_of_str;
      }

  -- Month to date for profit and loss and for the bank summary, and as of the date for the rest.
  unfoldable pub report_params : EntityType → C.Date → ReportSpec
  unfolding month_to_date
  report_params EntityType.report_profit_and_loss as_of = month_to_date as_of
  report_params EntityType.report_bank_summary as_of = month_to_date as_of
  report_params _ as_of = record {
    extra = (codes "date", C.iso as_of) ∷ [];
    period_key = codes "asof-" ++ C.iso as_of;
    report_date = some (C.iso as_of);
    report_from = none;
    report_to = none;
  }
