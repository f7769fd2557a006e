-- ===== src/Client/Listing.antt =====
-- The calls of core/crates/xero-client/src/lib.rs that return the records of an endpoint: all of
-- them, those with the extra knobs of a call, and those of a window of business dates.
pub mod Laws
pub mod Expansion
pub mod Complete
use xero_visma_v.Base.{
  ℕ, suc, Bool, true, false, not, ◌&&◌, ◌||◌, Option, none, some, List, [], ◌∷◌, ◌++◌, Text, codes,
  show, show_ℤ, pos, Result, ok, err, length, if◌then◌else◌, and_then,
}
use xero_visma_v.Base.BTree.{Pairs}
use xero_visma_v.Errors.{Error, xero_api}
use xero_visma_v.Foreign.{Time, Chrono, Json}
use xero_visma_v.Entity.{EntityType, xero_path, id_field}
use xero_visma_v.Client.Http.{Network, World, Run, ◌>>=◌, return, fail}
use xero_visma_v.Client.Query.{
  ExtraQuery, BusinessDateQueryMode, local_only, business_date_query_mode, supports_page_pagination,
}
use xero_visma_v.Client.Fetch.{
  XeroApiClient, fetch_records_with_owned_query, fetch_one_by_id, is_budgets,
}
use xero_visma_v.Client.Window.{DateWindow, business_date_query, no_filter}
use xero_visma_v.Client.Records.{
  filter_records_by_modified_window, filter_records_by_business_date_window,
}
use xero_visma_v.Client.Pages.{
  PaginationOutcome, is_suspect, single_page, or_hundred, page_query, pages_loop,
  fetch_inner_numbered,
}
use xero_visma_v.Client.Pages.Journals.{journals_loop, max_journal_number, is_journals}

pub record FetchResult (V : Type 0) : Type 0 where
  pub records : List V
  pub outcome : PaginationOutcome

unfoldable pub is_contact_groups : EntityType → Bool
is_contact_groups EntityType.contact_groups = true
is_contact_groups _ = false

-- `matches!(mode, BusinessDateQueryMode::LocalOnly(_))`
unfoldable pub is_local_only : BusinessDateQueryMode → Bool
is_local_only (local_only field) = true
is_local_only _ = false

-- `r?`
abbrev pub lift {ℓ} : {A : Type ℓ} → Result Error A → Run A
lift r w = some (r, w)

abbrev pub whole {ℓ} : {A : Type ℓ} → A → A
whole a = a

-- The `match` on the answer: the detail, or the record where there is none.
abbrev pub detail_or {ℓ} :
    {A : Type ℓ} → A → Option (Result Error (Option A) × World) → Option (Result Error A × World)
detail_or record_ none = none
detail_or record_ (some (ok (some detail), w)) = some (ok detail, w)
detail_or record_ (some (ok none, w)) = some (ok record_, w)
detail_or record_ (some (err e, w)) = some (ok record_, w)

module _ (J : Json) (C : Chrono) (N : Network) (client : XeroApiClient) (token : Text)
    (cap : ℕ) where
  unfoldable pub fetch_page : EntityType → Option Time → ℕ → ℕ → Run (List J.Value)
  unfolding page_query
  fetch_page e modified_after page page_size =
      fetch_records_with_owned_query J C N client token e modified_after
        (page_query e [] page_size page)

  unfoldable pub fetch_journals : EntityType → Option Time → Run (List J.Value × PaginationOutcome)
  unfolding journals_loop max_journal_number
  fetch_journals e modified_after =
      journals_loop
        (λ offset pages.
          fetch_records_with_owned_query J C N client token e modified_after
            ((codes "offset", show_ℤ offset) ∷ []))
        whole length (max_journal_number J) cap (suc cap) 0 (pos 0) []

  abbrev pub over_cap : EntityType → Error
  over_cap e = xero_api (xero_path e ++ codes " exceeded max page limit (" ++ show cap ++ codes ")")

  -- The loop is that of the tracked calls, but where they stop at the cap, this one fails.
  unfoldable pub fetch : EntityType → Option Time → Option Time → ℕ → Run (List J.Value)
  unfolding is_journals fetch_journals fetch_page pages_loop is_suspect
  fetch e modified_after modified_before page_size =
      let filtered : List J.Value → List J.Value =
        λ records. filter_records_by_modified_window J C records modified_after modified_before in
      if is_journals e
      then fetch_journals e modified_after >>= (λ (records, outcome). return (filtered records))
      else if not (supports_page_pagination e)
      then fetch_records_with_owned_query J C N client token e modified_after []
        >>= (λ records. return (filtered records))
      else pages_loop (λ page. fetch_page e modified_after page page_size) whole length cap
          (suc cap) 1 []
        >>= (λ (all, outcome).
            if is_suspect outcome.termination then fail (over_cap e) else return (filtered all))

  unfoldable pub fetch_inner :
      EntityType → Option Time → ℕ → ExtraQuery → Run (List J.Value × PaginationOutcome)
  unfolding is_journals fetch_journals fetch_inner_numbered
  fetch_inner e modified_after page_size extra =
      if is_journals e
      then fetch_journals e modified_after
      else fetch_inner_numbered J C N client token cap e modified_after page_size extra

  unfoldable pub expand_record : EntityType → ExtraQuery → J.Value → Run J.Value
  expand_record e extra record_ w = elim (and_then (J.get record_ (id_field e)) J.as_str) [
    | some id ↦ detail_or record_ (fetch_one_by_id J C N client token e id extra w)
    | none ↦ some (ok record_, w)
  ]

  -- `for record in filtered { … }`, with the records so far.
  unfoldable pub expand_records :
      EntityType → ExtraQuery → List J.Value → List J.Value → Run (List J.Value)
  unfolding expand_record
  expand_records e extra [] expanded = return expanded
  expand_records e extra (r ∷ rs) expanded =
      expand_record e extra r >>= λ x. expand_records e extra rs (expanded ++ x ∷ [])

  unfoldable pub fetch_with_extras_tracked :
      EntityType → Option Time → Option Time → ExtraQuery → Run (FetchResult J.Value)
  unfolding fetch_inner expand_records is_contact_groups is_budgets
  fetch_with_extras_tracked e modified_after modified_before extra =
      fetch_inner e modified_after (or_hundred extra.page_size) extra >>= λ (base, outcome).
      let filtered = filter_records_by_modified_window J C base modified_after modified_before in
      if extra.expand_lines && (is_budgets e || is_contact_groups e)
      then expand_records e extra filtered []
        >>= (λ expanded. return (record { records = expanded; outcome = outcome }))
      else return (record { records = filtered; outcome = outcome })

  unfoldable pub fetch_with_extras :
      EntityType → Option Time → Option Time → ExtraQuery → Run (List J.Value)
  unfolding fetch_with_extras_tracked
  fetch_with_extras e modified_after modified_before extra =
      fetch_with_extras_tracked e modified_after modified_before extra >>= λ r. return r.records

  -- The records of the window, of those fetched.
  unfoldable pub in_this_window :
      EntityType → DateWindow C.Date → List J.Value × PaginationOutcome → Run (FetchResult J.Value)
  in_this_window e window (records, outcome) = return (record {
    records = filter_records_by_business_date_window J C e records window;
    outcome = outcome;
  })

  -- What follows the lookup of the mode.
  unfoldable pub fetch_in_mode :
      EntityType → DateWindow C.Date → ℕ → BusinessDateQueryMode → Run (FetchResult J.Value)
  unfolding is_local_only fetch_journals pages_loop in_this_window
  fetch_in_mode e window page_size mode =
      let fetched : Pairs → Run (List J.Value) =
        fetch_records_with_owned_query J C N client token e none in
      if is_local_only mode
      then fetch_journals e (some (C.midnight window.start)) >>= in_this_window e window
      else if not (supports_page_pagination e)
      then lift (business_date_query C e window 1 page_size)
        >>= fetched
        >>= (λ records. in_this_window e window (records, single_page))
      else pages_loop (λ page. lift (business_date_query C e window page page_size) >>= fetched)
          whole length cap (suc cap) 1 []
        >>= in_this_window e window

  abbrev pub in_some_mode :
      EntityType → DateWindow C.Date → ℕ → Option BusinessDateQueryMode → Run (FetchResult J.Value)
  in_some_mode e window page_size none = fail (no_filter C e)
  in_some_mode e window page_size (some mode) = fetch_in_mode e window page_size mode

  unfoldable pub fetch_by_business_date_tracked :
      EntityType → DateWindow C.Date → ℕ → Run (FetchResult J.Value)
  unfolding fetch_in_mode
  fetch_by_business_date_tracked e window page_size =
      in_some_mode e window page_size (business_date_query_mode e)

  unfoldable pub fetch_by_business_date : EntityType → DateWindow C.Date → ℕ → Run (List J.Value)
  unfolding fetch_by_business_date_tracked
  fetch_by_business_date e window page_size =
      fetch_by_business_date_tracked e window page_size >>= λ r. return r.records
