-- ===== src/Client/Pages/Numbers.antt =====
-- The pages that `fetch_raw_pages` of core/crates/xero-client/src/lib.rs returns are numbered in
-- turn.
pub mod Loops
pub use Loops.{NumberedBy, wrapping}
use Loops.{Adds, pages_loop-Adds, journals_loop-Adds}
use xero_visma_v.Base.{
  ℕ, zero, suc, ◌+◌, ◌-◌, ◌%◌, ◌^◌, ◌≤◌, ◌≡◌, refl, sym, ap, ◌∙◌, subst, false, codes, show_ℤ, ℤ,
  leb_ℤ, pos, Option, none, some, List, [], ◌∷◌, ◌++◌, append_assoc, append-nil, Text, Result, ok,
  err, length, leb, ltb, ◌==◌, arith, Bool-cases, inl, inr,
}
use xero_visma_v.Base.BTree.{Pairs}
use xero_visma_v.Errors.{Error}
use xero_visma_v.Foreign.{Time, Chrono, Json}
use xero_visma_v.Entity.{EntityType}
use xero_visma_v.Config.{or_default}
use xero_visma_v.Client.Http.{Response, Body, bytes, broken, Network, World, Run, then_run, return}
use xero_visma_v.Client.Request.Results.{send_request-holds}
use xero_visma_v.Client.Query.{ExtraQuery, extra_query_pairs, supports_page_pagination}
use xero_visma_v.Client.Fetch.{RawPage, XeroApiClient, raw_policy, fetch_raw_with_query}
use xero_visma_v.Client.Pages.{
  PaginationOutcome, u32_max, single_page, or_hundred, page_query, should_stop_page_pagination,
  pages_loop, fetch_raw_numbered,
}
use xero_visma_v.Client.Pages.Journals.{
  journals_loop, is_journals, fetch_raw_journals, fetch_raw_pages, max_journal_number_from_bytes,
}

module _ (J : Json) (C : Chrono) (N : Network) (client : XeroApiClient) (token : Text) where
  fetch_raw-page :
      (e : EntityType) (modified_after : Option Time) (query : Pairs) (n : ℕ) (w : World)
      (x : RawPage) (v : World)
      → fetch_raw_with_query J C N client token e modified_after query n w ≡ some (ok x, v)
      → x.page ≡ n
  unfolding fetch_raw_with_query raw_policy
  fetch_raw-page e modified_after query n w x v h =
      send_request-holds (raw_policy J e n) (λ y. y.page ≡ n)
        (λ r a accepted. read r.body r a accepted) (λ f r same. sym (ap (λ o. page_by o r) same)) N
        _ w x v h
    where
      page_by : Option (Response → RawPage) → Response → ℕ
      page_by none r = n
      page_by (some f) r = (f r).page

      read :
          (b : Body) (r : Response) (a : RawPage)
          → (raw_policy J e n).accept (record r { body = b }) ≡ ok a
          → a.page ≡ n
      read (bytes s) r a h = cc h
      read (broken s) r a h = cc h

-- As long as the count fits a `u32`, it does not wrap.
suc-wrapping :
    (n : ℕ) (ps : List RawPage)
    → n + length ps ≤ 2 ^ 32
    → NumberedBy suc n ps
    → NumberedBy wrapping n ps
suc-wrapping n [] few h = tt
suc-wrapping n (p ∷ []) few h = (h.0, tt)
suc-wrapping n (p ∷ q ∷ ps) few h =
    let e : wrapping n ≡ suc n = omega arith in
    (h.0, rw e (suc-wrapping (suc n) (q ∷ ps) (omega arith) h.1))

-- Pages numbered from 1 as a `u32` counts, before it counts twice.
abbrev pub IsNumberedOnce : List RawPage → Type 0
IsNumberedOnce pages = NumberedBy wrapping 1 pages × (length pages ≤ 2 ^ 32)

Adds-nil :
    (after : ℕ → ℕ) (n most : ℕ) (pages : List RawPage) (outcome : PaginationOutcome) (v : World)
    (r : Option (Result Error (List RawPage × PaginationOutcome) × World))
    → Adds after n most [] r
    → r ≡ some (ok (pages, outcome), v)
    → NumberedBy after n pages × (length pages ≤ most)
Adds-nil after n most pages outcome v r added h =
    let (found, same, numbers, few) = subst (Adds after n most []) h added in rw same (numbers, few)

-- `Ok((vec![raw], outcome))`
one_page :
    (o : PaginationOutcome) (r : Option (Result Error RawPage × World)) (pages : List RawPage)
    (outcome : PaginationOutcome) (v : World)
    → ((x : RawPage) (u : World) → r ≡ some (ok x, u) → x.page ≡ 1)
    → then_run {B = List RawPage × PaginationOutcome} r (λ raw. return (raw ∷ [], o))
      ≡ some (ok (pages, outcome), v)
    → IsNumberedOnce pages
one_page o none pages outcome v first h = cc h
one_page o (some (err e, u)) pages outcome v first h = cc h
one_page o (some (ok x, u)) pages outcome v first h =
    let same : x ∷ [] ≡ pages = cc h in rw (← same) ((first x u refl, tt), omega arith)

module _ (J : Json) (C : Chrono) (N : Network) (client : XeroApiClient) (token : Text)
    (cap : ℕ) where
  numbered-NumberedBy :
      (e : EntityType) (modified_after : Option Time) (extras : ExtraQuery) (w : World)
      (pages : List RawPage) (outcome : PaginationOutcome) (v : World)
      → fetch_raw_numbered J C N client token cap e modified_after extras w
        ≡ some (ok (pages, outcome), v)
      → cap ≤ u32_max
      → IsNumberedOnce pages
  unfolding fetch_raw_numbered
  numbered-NumberedBy e modified_after extras w pages outcome v h fits =
      let fetch = fetch_raw_with_query J C N client token e modified_after in
      let pairs = extra_query_pairs extras e in
      elim (Bool-cases (supports_page_pagination e)) [
        | inl paged ↦
            let (numbers, few) =
              Adds-nil wrapping 1 (suc cap) pages outcome v _
                (pages_loop-Adds
                  (λ page. fetch (page_query e pairs (or_hundred extras.page_size) page) page)
                  (λ n u x t got. fetch_raw-page J C N client token e modified_after _ n u x t got)
                  cap (suc cap) 1 [] w)
                (rw paged at h) in
            (numbers, omega (arith, few))
        | inr unpaged ↦
            one_page single_page (fetch pairs 1 w) pages outcome v
              (λ x u got. fetch_raw-page J C N client token e modified_after pairs 1 w x u got)
              (rw unpaged at h)
      ]

  -- The pages that `fetch_raw_pages` returns are numbered 1, 2, and so on, as a `u32` counts,
  -- and there are so few that no number comes twice.
  pub fetch_raw_pages-NumberedBy :
      (e : EntityType) (modified_after : Option Time) (extras : ExtraQuery) (w : World)
      (pages : List RawPage) (outcome : PaginationOutcome) (v : World)
      → fetch_raw_pages J C N client token cap e modified_after extras w
        ≡ some (ok (pages, outcome), v)
      → cap ≤ u32_max
      → IsNumberedOnce pages
  unfolding fetch_raw_pages fetch_raw_journals
  fetch_raw_pages-NumberedBy e modified_after extras w pages outcome v h fits =
      elim (Bool-cases (is_journals e)) [
        | inl journals ↦
            let (numbers, few) =
              Adds-nil suc 1 (cap - 0) pages outcome v _
                (journals_loop-Adds
                  (λ offset n.
                    fetch_raw_with_query J C N client token e modified_after
                      ((codes "offset", show_ℤ offset) ∷ []) n)
                  (λ o n u x t got.
                    fetch_raw-page J C N client token e modified_after _ n u x t got)
                  (λ raw. max_journal_number_from_bytes J e raw.body) cap (suc cap) 0 (pos 0) [] w)
                (rw journals at h) in
            (suc-wrapping 1 pages (omega (arith, few)) numbers, omega (arith, few))
        | inr other ↦
            numbered-NumberedBy e modified_after extras w pages outcome v (rw other at h) fits
      ]
