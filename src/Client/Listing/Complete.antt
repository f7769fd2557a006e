-- ===== src/Client/Listing/Complete.antt =====
-- The calls that return records, against a server that answers each page after at most five
-- failures: they return the records of all pages, filtered.
use xero_visma_v.Base.{
  ℕ, zero, suc, ◌+◌, ◌-◌, ◌≤◌, ◌<◌, ◌≡◌, refl, ap, ◌∙◌, ◌≢◌, true, false, Option, none, some, List,
  [], ◌∷◌, ◌++◌, Text, ok, length, or_nil, map_option, arith,
}
use xero_visma_v.Base.BTree.{Pairs}
use xero_visma_v.Foreign.{Time, Chrono, Json}
use xero_visma_v.Entity.{EntityType, xero_path}
use xero_visma_v.Client.Http.{Request, Response, bytes, response, Network, World, Run, ◌>>=◌}
use xero_visma_v.Client.Request.{is_success, send_request}
use xero_visma_v.Client.Request.Laws.{is_retryable, answer}
use xero_visma_v.Client.Request.Answers.{send_request-answer}
use xero_visma_v.Client.Query.{
  BusinessDateQueryMode, business_date_query_mode, supports_page_pagination,
}
use xero_visma_v.Client.Fetch.{
  XeroApiClient, request_of, records_under, records_policy, fetch_records_with_owned_query,
}
use xero_visma_v.Client.Window.{DateWindow, paging, window_pairs, business_date_query}
use xero_visma_v.Client.Window.Laws.{business_date_query-pairs}
use xero_visma_v.Client.Records.{filter_records_by_business_date_window}
use xero_visma_v.Client.Pages.{ended_on_empty_page, u32_max, page_query, pages_loop}
use xero_visma_v.Client.Pages.Laws.{Covers, all_items, Serves, loop_until_empty}
use xero_visma_v.Client.Listing.{
  lift, whole, is_local_only, in_this_window, in_some_mode, fetch_in_mode,
  fetch_by_business_date_tracked,
}

-- Pages `first` to `first + many - 1` in a row.
abbrev pub pages_from {ℓ} : {A : Type ℓ} → (ℕ → List A) → ℕ → ℕ → List A
pages_from pages first zero = []
pages_from pages first (suc many) = pages first ++ pages_from pages (first + 1) many

all_items-Covers {ℓ} :
    {A : Type ℓ} (pages : ℕ → List A) (first : ℕ) (found : List (List A))
    → Covers (λ p xs. xs ≡ pages p) first found
    → all_items whole found ≡ pages_from pages first (length found)
all_items-Covers pages first [] c = refl
all_items-Covers pages first (xs ∷ found) c =
    rw (c.0, all_items-Covers pages (first + 1) found c.1) refl

module _ (J : Json) (C : Chrono) (N : Network) (client : XeroApiClient) (token : Text)
    (e : EntityType) where
  abbrev HasSlot : World → Type 0
  HasSlot w = w.limiter.in_flight < 6

  -- From the n-th request on, the network answers `request` with the records `records`, after at
  -- most five failures that are worth a retry.
  pub record Lists (request : Request) (records : List J.Value) (n : ℕ) : Type 0 where
    pub failures : ℕ
    pub few : failures ≤ 5
    pub failing :
        (i : ℕ)
        → i < failures
        → is_retryable (records_policy J C N client token e) (N.send (n + i) request) ≡ true
    pub reply : Response
    pub replied : N.send (n + failures) request ≡ response reply
    pub succeeds : is_success reply.status ≡ true
    pub body : Text
    pub carries : reply.body ≡ bytes body
    pub value : J.Value
    pub parses : J.from_slice body ≡ ok value
    pub has : or_nil (records_under J (xero_path e) value) ≡ records

  success_answer :
      (r : Response) (body : Text) (value : J.Value)
      → is_success r.status ≡ true
      → r.body ≡ bytes body
      → J.from_slice body ≡ ok value
      → (is_retryable (records_policy J C N client token e) (response r) ≡ false)
        × (answer (records_policy J C N client token e) (response r)
            ≡ ok (or_nil (records_under J (xero_path e) value)))
  unfolding is_retryable answer records_policy
  success_answer r body value s b p = ground (arith, p)

  module _ (pages : ℕ → List J.Value) (request : ℕ → Request)
      (listed : (n p : ℕ) → Lists (request p) (pages p) n) where
    abbrev fetched : ℕ → Run (List J.Value)
    fetched p = send_request N (records_policy J C N client token e) (request p)

    served :
        (p : ℕ) (w : World)
        → HasSlot w
        → (v : World) × (fetched p w ≡ some (ok (pages p), v)) × HasSlot v
    served p w g =
        let l = listed w.sent p in
        let (quiet, is_answer) =
          success_answer l.reply l.body l.value l.succeeds l.carries l.parses in
        let (v, returned, _, kept) =
          send_request-answer N (records_policy J C N client token e) (request p) l.failures w l.few
            g l.failing (rw l.replied quiet) in
        (
          v,
          returned ∙ ap (λ r. some (r, v)) (rw l.replied (is_answer ∙ ap ok l.has)),
          omega (arith, kept),
        )

    module _ (get : ℕ → Run (List J.Value))
        (same : (p : ℕ) (w : World) → get p w ≡ fetched p w) where
      serves : Serves get length (λ p. length (pages p)) (λ p xs. xs ≡ pages p) HasSlot
      serves = record {
        page = λ p w g. pages p;
        after = λ p w g. (served p w g).0;
        returns = λ p w g. same p w ∙ (served p w g).1;
        good_after = λ p w g. (served p w g).2;
        right = λ p w g. refl;
        size = λ p w g. refl;
      }

      loop_complete :
          (cap n : ℕ) (w : World)
          → HasSlot w
          → 1 + n ≤ cap
          → cap ≤ u32_max
          → ((i : ℕ) → i < n → length (pages (1 + i)) ≢ 0)
          → length (pages (1 + n)) ≡ 0
          → (v : World) × (pages_loop get whole length cap (suc cap) 1 [] w
              ≡ some (
                ok (
                  pages_from pages 1 (suc n),
                  record { pages_fetched = n; termination = ended_on_empty_page },
                ),
                v,
              ))
            × HasSlot v
      loop_complete cap n w g fits max full empty =
          let f =
            loop_until_empty get whole length cap (λ p. length (pages p)) (λ p xs. xs ≡ pages p)
              HasSlot serves n (suc cap) 1 [] w g (omega arith) fits max full empty in
          let all : all_items whole f.pages ≡ pages_from pages 1 (suc n) =
            all_items-Covers pages 1 f.pages f.covers
            ∙ ap (λ m. pages_from pages 1 m) f.many_pages in
          let count : 1 + n - 1 ≡ n = omega arith in
          (f.last, rw (count, all) at f.returned, f.good_last)

  -- The request for page `p` of all records.
  abbrev pub page_request : Option Time → ℕ → ℕ → Request
  page_request modified_after page_size p =
      request_of client token (xero_path e) (page_query e [] page_size p)
        (map_option C.since modified_after)

  -- The request for a page of a window of business dates.
  abbrev pub window_request : Pairs → Request
  window_request query = request_of client token (xero_path e) query none

  -- Under the same conditions on the server and the cap, and where the filter for the window can
  -- be written: the fetch by business date of a paged entity whose dates the server can
  -- filter returns the records of all pages that are in the window, and says that it ended at the
  -- empty page.
  pub fetch_by_business_date_tracked_complete :
      (window : DateWindow C.Date) (page_size : ℕ) (mode : BusinessDateQueryMode)
      (filter_of : Pairs) (pages : ℕ → List J.Value)
      (listed : (n p : ℕ)
        → Lists (window_request (filter_of ++ paging C e p page_size)) (pages p) n)
      (cap n : ℕ) (w : World)
      → business_date_query_mode e ≡ some mode
      → is_local_only mode ≡ false
      → window_pairs C mode window ≡ ok filter_of
      → supports_page_pagination e ≡ true
      → w.limiter.in_flight < 6
      → 1 + n ≤ cap
      → cap ≤ u32_max
      → ((i : ℕ) → i < n → length (pages (1 + i)) ≢ 0)
      → length (pages (1 + n)) ≡ 0
      → (v : World) × (fetch_by_business_date_tracked J C N client token cap e window page_size w
          ≡ some (
            ok (record {
              records =
                  filter_records_by_business_date_window J C e (pages_from pages 1 (suc n)) window;
              outcome = record { pages_fetched = n; termination = ended_on_empty_page };
            }),
            v,
          ))
        × (v.limiter.in_flight < 6)
  unfolding fetch_by_business_date_tracked fetch_in_mode fetch_records_with_owned_query
      in_this_window
  fetch_by_business_date_tracked_complete window page_size mode filter_of pages listed cap n w found
        remote asks paged free fits max full empty =
      let (v, returned, kept) =
        loop_complete pages (λ p. window_request (filter_of ++ paging C e p page_size)) listed
          (λ p.
            lift (business_date_query C e window p page_size)
            >>= fetch_records_with_owned_query J C N client token e none)
          (λ p w.
            rw (business_date_query-pairs C e window mode filter_of p page_size found asks) refl)
          cap n w free fits max full empty in
      let start = ap (λ o. in_some_mode J C N client token cap e window page_size o w) found in
      (v, start ∙ rw (remote, paged, returned) refl, kept)
