-- ===== src/Client/Pages/Complete.antt =====
-- `fetch_raw_pages` against a server that may fail, but not more than five times in a row: the
-- paging loop and the request loop together.
use xero_visma_v.Base.{
  ℕ, suc, ◌+◌, ◌-◌, ◌≤◌, ◌<◌, ◌≡◌, refl, ap, ◌∙◌, ◌≢◌, true, false, Option, some, List, [], ◌∷◌,
  Text, Result, ok, length, arith, map_option,
}
use xero_visma_v.Errors.{Error}
use xero_visma_v.Foreign.{Time, Chrono, Json}
use xero_visma_v.Entity.{EntityType, xero_path}
use xero_visma_v.Client.Http.{Request, Response, bytes, response, Network, World, Run}
use xero_visma_v.Client.Request.{is_success}
use xero_visma_v.Client.Request.Laws.{is_retryable, answer}
use xero_visma_v.Client.Request.Answers.{send_request-answer}
use xero_visma_v.Client.Query.{ExtraQuery, extra_query_pairs, supports_page_pagination}
use xero_visma_v.Client.Fetch.{
  RawPage, XeroApiClient, request_of, raw_policy, record_count_from_bytes, fetch_raw_with_query,
}
use xero_visma_v.Client.Pages.{
  hit_max_pages_cap, ended_on_empty_page, PaginationOutcome, u32_max, or_hundred, page_query,
  pages_loop, fetch_raw_numbered,
}
use xero_visma_v.Client.Pages.Laws.{
  Covers, all_items, Serves, Fetched, loop_until_empty, loop_until_cap,
}

module _ (J : Json) (C : Chrono) (N : Network) (client : XeroApiClient) (token : Text)
    (e : EntityType) (modified_after : Option Time) (extras : ExtraQuery) where
  -- The request for a page.
  abbrev pub page_request : ℕ → Request
  page_request p =
      request_of client token (xero_path e)
        (page_query e (extra_query_pairs extras e) (or_hundred extras.page_size) p)
        (map_option C.since modified_after)

  -- From any moment on, the network answers the request for page `p` with the bytes `content p`
  -- after at most five failures that are worth a retry.
  pub record Answered (content : ℕ → Text) (n p : ℕ) : Type 0 where
    pub failures : ℕ
    pub few : failures ≤ 5
    pub failing :
        (i : ℕ)
        → i < failures
        → is_retryable (raw_policy J e p) (N.send (n + i) (page_request p)) ≡ true
    pub reply : Response
    pub replied : N.send (n + failures) (page_request p) ≡ response reply
    pub succeeds : is_success reply.status ≡ true
    pub carries : reply.body ≡ bytes (content p)

  abbrev HasSlot : World → Type 0
  HasSlot w = w.limiter.in_flight < 6

  -- A page has its number, the bytes of the server, and the count of their records.
  pub record IsPage (content : ℕ → Text) (p : ℕ) (raw : RawPage) : Type 0 where
    pub number : raw.page ≡ p
    pub verbatim : raw.body ≡ content p
    pub counted : raw.record_count ≡ record_count_from_bytes J e (content p)

  abbrev fetch_page : ℕ → Run RawPage
  fetch_page p =
      fetch_raw_with_query J C N client token e modified_after
        (page_query e (extra_query_pairs extras e) (or_hundred extras.page_size) p) p

  abbrev raw_of : ℕ → Text → Response → RawPage
  raw_of p body r = record {
    page = p;
    body = body;
    http_status = r.status;
    record_count = record_count_from_bytes J e body;
    fetched_at = r.read_at;
  }

  success_answer :
      (p : ℕ) (r : Response) (body : Text)
      → is_success r.status ≡ true
      → r.body ≡ bytes body
      → (is_retryable (raw_policy J e p) (response r) ≡ false)
        × (answer (raw_policy J e p) (response r) ≡ ok (raw_of p body r))
  unfolding is_retryable answer raw_policy
  success_answer p r body s b = ground arith

  module _ (content : ℕ → Text) (answered : (n p : ℕ) → Answered content n p) where
    served :
        (p : ℕ) (w : World)
        → HasSlot w
        → (raw : RawPage) × (v : World) × (fetch_page p w ≡ some (ok raw, v))
          × HasSlot v
          × IsPage content p raw
    unfolding fetch_raw_with_query
    served p w g =
        let a = answered w.sent p in
        let (quiet, is_answer) = success_answer p a.reply (content p) a.succeeds a.carries in
        let (v, returned, _, kept) =
          send_request-answer N (raw_policy J e p) (page_request p) a.failures w a.few g a.failing
            (rw a.replied quiet) in
        (
          raw_of p (content p) a.reply,
          v,
          returned ∙ ap (λ r. some (r, v)) (rw a.replied is_answer),
          omega (arith, kept),
          record { number = refl; verbatim = refl; counted = refl },
        )

    serves :
        Serves fetch_page
          (λ raw. raw.record_count)
          (λ p. record_count_from_bytes J e (content p))
          (IsPage content)
          HasSlot
    serves = record {
      page = λ p w g. (served p w g).0;
      after = λ p w g. (served p w g).1;
      returns = λ p w g. (served p w g).2;
      good_after = λ p w g. (served p w g).3;
      right = λ p w g. (served p w g).4;
      size = λ p w g. (served p w g).4.counted;
    }

    -- Pages `first` to `first + many - 1` were returned, in order, with this outcome.
    pub record Collected (many : ℕ) (outcome : PaginationOutcome)
        (r : Option (Result Error (List RawPage × PaginationOutcome) × World)) : Type 0 where
      pub pages : List RawPage
      pub last : World
      pub returned : r ≡ some (ok (pages, outcome), last)
      pub covers : Covers (IsPage content) 1 pages
      pub many_pages : length pages ≡ many
      pub slot_free : HasSlot last

    singletons : (xs : List RawPage) → all_items (λ raw. raw ∷ []) xs ≡ xs
    singletons [] = refl
    singletons (x ∷ xs) = ap (λ ys. x ∷ ys) (singletons xs)

    collected :
        (many : ℕ) (outcome : PaginationOutcome)
        → (r : Option (Result Error (List RawPage × PaginationOutcome) × World))
        → Fetched (λ raw. raw ∷ []) (IsPage content) HasSlot 1 many [] outcome r
        → Collected many outcome r
    collected many outcome r f = record {
      pages = f.pages;
      last = f.last;
      returned = f.returned ∙ ap (λ xs. some (ok (xs, outcome), f.last)) (singletons f.pages);
      covers = f.covers;
      many_pages = f.many_pages;
      slot_free = f.good_last;
    }

    numbered :
        (cap : ℕ) (w : World)
        → supports_page_pagination e ≡ true
        → fetch_raw_numbered J C N client token cap e modified_after extras w
          ≡ pages_loop fetch_page (λ raw. raw ∷ []) (λ raw. raw.record_count) cap (suc cap) 1 [] w
    unfolding fetch_raw_numbered
    numbered cap w paged = rw paged

    -- For a paged entity and a limiter with a free slot, against a server that answers each page
    -- after at most five failures that are worth a retry, where the first empty page is within the
    -- cap and the cap is a `u32`: the fetch returns every page up to that first empty one, once,
    -- in order and byte for byte, and says that it ended there; `pages_fetched` leaves the empty
    -- page out.
    pub fetch_raw_numbered_complete :
        (cap n : ℕ) (w : World)
        → supports_page_pagination e ≡ true
        → w.limiter.in_flight < 6
        → 1 + n ≤ cap
        → cap ≤ u32_max
        → ((i : ℕ) → i < n → record_count_from_bytes J e (content (1 + i)) ≢ 0)
        → record_count_from_bytes J e (content (1 + n)) ≡ 0
        → Collected
            (suc n)
            (record { pages_fetched = n; termination = ended_on_empty_page })
            (fetch_raw_numbered J C N client token cap e modified_after extras w)
    fetch_raw_numbered_complete cap n w paged free fits max full empty =
        let e : 1 + n - 1 ≡ n = omega arith in
        rw (numbered cap w paged) (
          collected _ _ _ (
            rw e at (
              loop_until_empty fetch_page (λ raw. raw ∷ []) (λ raw. raw.record_count) cap _
                (IsPage content) HasSlot serves n (suc cap) 1 [] w free (omega arith) fits max full
                empty)))

    -- For a paged entity, a limiter with a free slot and such a server, if no page up to the cap
    -- is empty, and the cap is below the greatest `u32`, the fetch ends too: it returns the pages
    -- up to the cap and says that the cap cut it off.
    fetch_raw_numbered_capped :
        (cap : ℕ) (w : World)
        → supports_page_pagination e ≡ true
        → w.limiter.in_flight < 6
        → cap < u32_max
        → ((i : ℕ) → i < cap → record_count_from_bytes J e (content (1 + i)) ≢ 0)
        → Collected cap
            (record { pages_fetched = cap; termination = hit_max_pages_cap })
            (fetch_raw_numbered J C N client token cap e modified_after extras w)
    fetch_raw_numbered_capped cap w paged free max full = rw (numbered cap w paged) (
        collected _ _ _ (
          loop_until_cap fetch_page (λ raw. raw ∷ []) (λ raw. raw.record_count) cap _
            (IsPage content) HasSlot serves cap (suc cap) 1 [] w free (omega arith) (omega arith)
            max full))
