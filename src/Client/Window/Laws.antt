-- ===== src/Client/Window/Laws.antt =====
-- The queries for a window of business dates.
use xero_visma_v.Base.{ℕ, ◌<◌, ◌≡◌, refl, ap, ◌∙◌, some, ◌++◌, ok, ◌>>=◌, arith, codes, ◌∷◌, []}
use xero_visma_v.Base.BTree.{Pairs}
use xero_visma_v.Foreign.{Chrono}
use xero_visma_v.Foreign.Laws.{IsCalendar}
use xero_visma_v.Entity.{EntityType}
use xero_visma_v.Client.Query.{
  BusinessDateQueryMode, by_where, date_from_to, local_only, business_date_query_mode,
}
use xero_visma_v.Client.Window.{
  DateWindow, new, paging, query_of, inclusive_end_date, window_pairs, business_date_query,
}

module _ (C : Chrono) where
  pub business_date_query-pairs :
      (e : EntityType) (window : DateWindow C.Date) (mode : BusinessDateQueryMode)
      (filter_of : Pairs) (page page_size : ℕ)
      → business_date_query_mode e ≡ some mode
      → window_pairs C mode window ≡ ok filter_of
      → business_date_query C e window page page_size ≡ ok (filter_of ++ paging C e page page_size)
  unfolding business_date_query
  business_date_query-pairs e window mode filter_of page page_size found pairs =
      ap (query_of C e window page page_size) found
      ∙ ap (λ r. r >>= λ query. ok (query ++ paging C e page page_size)) pairs

  window_pairs-total :
      (calendar : IsCalendar C) (mode : BusinessDateQueryMode) (window : DateWindow C.Date)
      → C.day window.start < C.day window.end_exclusive
      → (filter_of : Pairs) × (window_pairs C mode window ≡ ok filter_of)
  unfolding window_pairs inclusive_end_date
  window_pairs-total calendar (by_where field) window some_days = (_, refl)
  window_pairs-total calendar (local_only field) window some_days = (_, refl)
  window_pairs-total calendar date_from_to window some_days =
      let (to, found, before) = calendar.sub_days_some window.end_exclusive 1 (omega arith) in
      ((codes "DateFrom", C.iso window.start) ∷ (codes "DateTo", C.iso to) ∷ [], rw found refl)

  new-nonempty :
      (start end_exclusive : C.Date) (window : DateWindow C.Date)
      → new C start end_exclusive ≡ ok window
      → C.day window.start < C.day window.end_exclusive
  unfolding new
  new-nonempty start end_exclusive window h = ground (arith, h)

  -- For a calendar: a window that `DateWindow::new` accepts has a query for each page of each
  -- entity with a business-date filter.
  business_date_query-total :
      (calendar : IsCalendar C) (e : EntityType) (mode : BusinessDateQueryMode)
      (start end_exclusive : C.Date) (window : DateWindow C.Date) (page page_size : ℕ)
      → new C start end_exclusive ≡ ok window
      → business_date_query_mode e ≡ some mode
      → (query : Pairs) × (business_date_query C e window page page_size ≡ ok query)
  business_date_query-total calendar e mode start end_exclusive window page page_size made found =
      let (filter_of, pairs) =
        window_pairs-total calendar mode window (new-nonempty start end_exclusive window made) in
      (_, business_date_query-pairs e window mode filter_of page page_size found pairs)
