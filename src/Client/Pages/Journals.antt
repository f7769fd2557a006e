-- ===== src/Client/Pages/Journals.antt =====
-- The Journals endpoint of core/crates/xero-client/src/lib.rs, paged by the largest journal number
-- so far, and `fetch_raw_pages`.
pub mod Loop
pub mod Laws
use xero_visma_v.Base.{
  ℕ, zero, suc, ◌+◌, ℤ, pos, leb_ℤ, max_ℤ, show_ℤ, parse_i64, Bool, true, false, ◌||◌, Option, none,
  some, List, [], ◌∷◌, ◌++◌, Text, codes, leb, ◌==◌, if◌then◌else◌, and_then, or_else, ok?,
}
use xero_visma_v.Foreign.{Time, Chrono, Json}
use xero_visma_v.Entity.{EntityType, xero_path}
use xero_visma_v.Config.{or_default}
use xero_visma_v.Client.Http.{Network, Run, ◌>>=◌, return}
use xero_visma_v.Client.Query.{ExtraQuery}
use xero_visma_v.Client.Fetch.{RawPage, XeroApiClient, records_under, fetch_raw_with_query}
use xero_visma_v.Client.Pages.{
  PaginationOutcome, TerminationReason, ended_on_empty_page, hit_max_pages_cap,
  offset_not_advancing, fetch_raw_numbered,
}

unfoldable pub should_stop_offset_pagination : ℕ → ℤ → ℤ → Bool
should_stop_offset_pagination records offset next = (records == 0) || leb_ℤ next offset

-- `Option::max` over the numbers that are present
abbrev later : Option ℤ → Option ℤ → Option ℤ
later none b = b
later (some a) none = some a
later (some a) (some b) = some (max_ℤ a b)

module _ (J : Json) where
  unfoldable pub journal_number : J.Value → Option ℤ
  unfolding parse_i64
  journal_number record_ =
      and_then (J.get record_ (codes "JournalNumber"))
        λ v. or_else (J.as_i64 v) (and_then (J.as_str v) parse_i64)

  unfoldable pub max_journal_number : List J.Value → Option ℤ
  unfolding journal_number
  max_journal_number [] = none
  max_journal_number (r ∷ rs) = later (journal_number r) (max_journal_number rs)

  unfoldable pub max_journal_number_from_bytes : EntityType → Text → Option ℤ
  unfolding records_under max_journal_number
  max_journal_number_from_bytes e body =
      and_then (ok? (J.from_slice body))
        λ v. and_then (records_under J (xero_path e) v) max_journal_number

-- `loop { … }` of `fetch_raw_journals` and `fetch_journals`: `get` fetches the page at an offset
-- under its number, `items` is what is kept of it, `records` their number, and `last` its largest
-- journal number.
module _ {ℓ κ} {X : Type ℓ} {A : Type κ} (get : ℤ → ℕ → Run X) (items : X → List A)
    (records : X → ℕ) (last : X → Option ℤ) (cap : ℕ) where
  unfoldable pub journals_loop : ℕ → ℕ → ℤ → List A → Run (List A × PaginationOutcome)
  unfolding should_stop_offset_pagination
  journals_loop zero pages offset all w = none
  journals_loop (suc fuel) pages offset all w =
      let rest =
        (get offset (suc pages) >>= λ x.
        let next = or_default (last x) offset in
        let more = journals_loop fuel (suc pages) next (all ++ items x) in
        if records x == 0
        then return (
          all ++ items x,
          record { pages_fetched = suc pages; termination = ended_on_empty_page },
        )
        else if should_stop_offset_pagination (records x) offset next
        then return (
          all ++ items x,
          record { pages_fetched = suc pages; termination = offset_not_advancing },
        )
        else more)
          w in
      if leb cap pages
      then return (all, record { pages_fetched = pages; termination = hit_max_pages_cap }) w
      else rest

unfoldable pub is_journals : EntityType → Bool
is_journals EntityType.journals = true
is_journals _ = false

module _ (J : Json) (C : Chrono) (N : Network) (client : XeroApiClient) (token : Text)
    (cap : ℕ) where
  unfoldable pub fetch_raw_journals :
      EntityType → Option Time → Run (List RawPage × PaginationOutcome)
  unfolding journals_loop max_journal_number_from_bytes
  fetch_raw_journals e modified_after =
      journals_loop
        (λ offset pages.
          fetch_raw_with_query J C N client token e modified_after
            ((codes "offset", show_ℤ offset) ∷ []) pages)
        (λ raw. raw ∷ []) (λ raw. raw.record_count)
        (λ raw. max_journal_number_from_bytes J e raw.body) cap (suc cap) 0 (pos 0) []

  unfoldable pub fetch_raw_pages :
      EntityType → Option Time → ExtraQuery → Run (List RawPage × PaginationOutcome)
  unfolding is_journals fetch_raw_journals
  fetch_raw_pages e modified_after extras =
      if is_journals e
      then fetch_raw_journals e modified_after
      else fetch_raw_numbered J C N client token cap e modified_after extras
