-- ===== src/Client/Pages.antt =====
-- The paging loops of core/crates/xero-client/src/lib.rs. A page number is a `u32`; `page += 1` is
-- written with its wrap-around.
pub mod Laws
pub mod Complete
pub mod Journals
pub mod Numbers
use xero_visma_v.Base.{
  ℕ, zero, suc, ◌+◌, ◌-◌, ◌%◌, ◌^◌, Bool, true, false, not, ◌&&◌, ◌||◌, Option, none, some, List,
  [], ◌∷◌, ◌++◌, Text, codes, show, parse_unsigned, Result, ok, err, length, ltb, ◌==◌,
  if◌then◌else◌,
}
use xero_visma_v.Base.BTree.{Pairs}
use xero_visma_v.Errors.{Error}
use xero_visma_v.Foreign.{Time, Chrono, Json}
use xero_visma_v.Entity.{EntityType}
use xero_visma_v.Client.Http.{Network, World, Run, ◌>>=◌, return}
use xero_visma_v.Client.Query.{
  ExtraQuery, extra_query_pairs, supports_page_pagination, supports_page_size,
}
use xero_visma_v.Client.Fetch.{
  RawPage, XeroApiClient, fetch_raw_with_query, fetch_records_with_owned_query,
}

pub data TerminationReason : Type 0 where
  ended_on_empty_page hit_max_pages_cap offset_not_advancing : TerminationReason

unfoldable pub reason_str : TerminationReason → Text
reason_str ended_on_empty_page = codes "ended_on_empty_page"
reason_str hit_max_pages_cap = codes "hit_max_pages_cap"
reason_str offset_not_advancing = codes "offset_not_advancing"

unfoldable pub is_suspect : TerminationReason → Bool
is_suspect hit_max_pages_cap = true
is_suspect _ = false

pub record PaginationOutcome : Type 0 where
  pub pages_fetched : ℕ
  pub termination : TerminationReason

abbrev pub single_page : PaginationOutcome
single_page = record { pages_fetched = 1; termination = ended_on_empty_page }

abbrev pub u32_max : ℕ
u32_max = 2 ^ 32 - 1

positive_or_max : Option ℕ → ℕ
positive_or_max none = u32_max
positive_or_max (some n) = if ltb 0 n then n else u32_max

-- The cap, from the variable `XERO_MAX_PAGES_PER_ENTITY`.
unfoldable pub max_pages_per_entity : Option Text → ℕ
unfolding positive_or_max
max_pages_per_entity none = u32_max
max_pages_per_entity (some s) = positive_or_max (parse_unsigned (2 ^ 32) s)

unfoldable pub should_stop_page_pagination : ℕ → Bool
should_stop_page_pagination records = records == 0

-- `loop { … }` of the callers below at `page`, with the items so far. `get` fetches a page, `items`
-- is what is kept of it, and `records` their number.
module _ {ℓ κ} {X : Type ℓ} {A : Type κ} (get : ℕ → Run X) (items : X → List A) (records : X → ℕ)
    (cap : ℕ) where
  unfoldable pub pages_loop : ℕ → ℕ → List A → Run (List A × PaginationOutcome)
  unfolding should_stop_page_pagination
  pages_loop zero page all w = none
  pages_loop (suc fuel) page all w =
      let rest =
        (get page >>= λ x.
        let more = pages_loop fuel ((page + 1) % 2 ^ 32) (all ++ items x) in
        if should_stop_page_pagination (records x)
        then return
            (all ++ items x, record { pages_fetched = page - 1; termination = ended_on_empty_page })
        else more)
          w in
      if ltb cap page
      then return (all, record { pages_fetched = page - 1; termination = hit_max_pages_cap }) w
      else rest

unfoldable pub page_query : EntityType → Pairs → ℕ → ℕ → Pairs
page_query e pairs page_size page =
    pairs
    ++ (codes "page", show page)
      ∷ (if supports_page_size e then (codes "pageSize", show page_size) ∷ [] else [])

abbrev pub or_hundred : Option ℕ → ℕ
or_hundred none = 100
or_hundred (some n) = n

module _ (J : Json) (C : Chrono) (N : Network) (client : XeroApiClient) (token : Text)
    (cap : ℕ) where
  -- The part of `fetch_raw_pages` for entities other than Journals.
  unfoldable pub fetch_raw_numbered :
      EntityType → Option Time → ExtraQuery → Run (List RawPage × PaginationOutcome)
  unfolding page_query pages_loop
  fetch_raw_numbered e modified_after extras =
      let pairs = extra_query_pairs extras e in
      let size = or_hundred extras.page_size in
      let fetch = fetch_raw_with_query J C N client token e modified_after in
      if not (supports_page_pagination e)
      then fetch pairs 1 >>= (λ raw. return (raw ∷ [], single_page))
      else pages_loop (λ page. fetch (page_query e pairs size page) page) (λ raw. raw ∷ [])
          (λ raw. raw.record_count) cap (suc cap) 1 []

  -- The part of `fetch_inner` for entities other than Journals.
  unfoldable pub fetch_inner_numbered :
      EntityType → Option Time → ℕ → ExtraQuery → Run (List J.Value × PaginationOutcome)
  unfolding page_query pages_loop
  fetch_inner_numbered e modified_after size extras =
      let pairs = extra_query_pairs extras e in
      let fetch = fetch_records_with_owned_query J C N client token e modified_after in
      if not (supports_page_pagination e)
      then fetch pairs >>= (λ records. return (records, single_page))
      else pages_loop (λ page. fetch (page_query e pairs size page)) (λ records. records) length cap
          (suc cap) 1 []
