-- ===== src/Client/Window.antt =====
-- Half-open windows of business dates in core/crates/xero-client/src/lib.rs, and the queries that
-- ask the server for one.
pub mod Laws
use xero_visma_v.Base.{
  ℕ, Option, none, some, [], ◌∷◌, ◌++◌, Text, codes, show, show_ℤ, Result, ok, err, ok_or, ◌>>=◌,
  leb, if◌then◌else◌,
}
use xero_visma_v.Base.BTree.{Pairs}
use xero_visma_v.Errors.{Error, config}
use xero_visma_v.Foreign.{Chrono}
use xero_visma_v.Entity.{EntityType, as_str}
use xero_visma_v.Client.Query.{
  BusinessDateQueryMode, by_where, date_from_to, local_only, business_date_query_mode,
  supports_page_pagination, supports_page_size,
}

pub record DateWindow (D : Type 0) : Type 0 where
  pub start : D
  pub end_exclusive : D

module _ (C : Chrono) where
  -- `DateWindow::new`
  unfoldable pub new : C.Date → C.Date → Result Error (DateWindow C.Date)
  new start end_exclusive =
      if leb (C.day end_exclusive) (C.day start)
      then err (
          config (
            codes "business date window must be half-open with start < end, got "
            ++ C.iso start
            ++ codes ".."
            ++ C.iso end_exclusive))
      else ok (record { start = start; end_exclusive = end_exclusive })

  abbrev date_time : C.Date → Text
  date_time d =
      codes "DateTime("
      ++ show_ℤ (C.year d)
      ++ codes ", "
      ++ show (C.month d)
      ++ codes ", "
      ++ show (C.day_of_month d)
      ++ codes ")"

  unfoldable pub where_date_window : Text → DateWindow C.Date → Text
  where_date_window field window =
      field
      ++ codes ">="
      ++ date_time window.start
      ++ codes " && "
      ++ field
      ++ codes "<"
      ++ date_time window.end_exclusive

  unfoldable pub inclusive_end_date : DateWindow C.Date → Result Error C.Date
  inclusive_end_date window = ok_or (C.checked_sub_days window.end_exclusive 1) (
      config (
        codes "business date window end cannot be converted to inclusive DateTo: "
        ++ C.iso window.end_exclusive))

  -- `match mode`
  unfoldable pub window_pairs : BusinessDateQueryMode → DateWindow C.Date → Result Error Pairs
  unfolding where_date_window inclusive_end_date
  window_pairs (by_where field) window = ok ((codes "where", where_date_window field window) ∷ [])
  window_pairs date_from_to window = inclusive_end_date window >>= λ to.
      ok ((codes "DateFrom", C.iso window.start) ∷ (codes "DateTo", C.iso to) ∷ [])
  window_pairs (local_only field) window = ok []

  -- What is pushed after the filter.
  abbrev pub paging : EntityType → ℕ → ℕ → Pairs
  paging e page page_size =
      (if supports_page_pagination e then (codes "page", show page) ∷ [] else [])
      ++ (if supports_page_size e then (codes "pageSize", show page_size) ∷ [] else [])

  abbrev pub no_filter : EntityType → Error
  no_filter e = config (as_str e ++ codes " does not expose a supported business-date filter")

  abbrev pub query_of :
      EntityType → DateWindow C.Date → ℕ → ℕ → Option BusinessDateQueryMode → Result Error Pairs
  query_of e window page page_size none = err (no_filter e)
  query_of e window page page_size (some mode) =
      window_pairs mode window >>= λ query. ok (query ++ paging e page page_size)

  unfoldable pub business_date_query : EntityType → DateWindow C.Date → ℕ → ℕ → Result Error Pairs
  unfolding window_pairs
  business_date_query e window page page_size =
      query_of e window page page_size (business_date_query_mode e)
