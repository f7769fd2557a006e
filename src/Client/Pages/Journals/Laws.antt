-- ===== src/Client/Pages/Journals/Laws.antt =====
-- How `fetch_raw_journals` of core/crates/xero-client/src/lib.rs proceeds and ends.
use xero_visma_v.Base.{ℕ, ℤ, show_ℤ, Option, List, [], ◌∷◌, codes, Text, Result, ok, err, length}
use xero_visma_v.Errors.{Error}
use xero_visma_v.Foreign.{Time, Chrono, Json}
use xero_visma_v.Entity.{EntityType}
use xero_visma_v.Client.Http.{Network, Run}
use xero_visma_v.Client.Fetch.{RawPage, XeroApiClient, fetch_raw_with_query}
use xero_visma_v.Client.Pages.{PaginationOutcome, TerminationReason}

-- The pages with the reason of their end, or the error that ended them.
abbrev pub with_pages :
    List RawPage → Result Error TerminationReason → Result Error (List RawPage × PaginationOutcome)
with_pages xs (err e) = err e
with_pages xs (ok t) = ok (xs, record { pages_fetched = length xs; termination = t })

module _ (J : Json) (C : Chrono) (N : Network) (client : XeroApiClient) (token : Text) where
  -- The request for a page of journals above the offset.
  abbrev pub journals_at : EntityType → Option Time → ℤ → ℕ → Run RawPage
  journals_at e modified_after offset n =
      fetch_raw_with_query J C N client token e modified_after
        ((codes "offset", show_ℤ offset) ∷ []) n
