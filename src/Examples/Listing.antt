-- ===== src/Examples/Listing.antt =====
-- The theorems on the calls that return records, at concrete inputs.
use xero_visma_v.Base.{
  ℕ, zero, suc, ◌+◌, ◌*◌, ◌≤◌, ◌<◌, ◌≡◌, refl, ◌≢◌, pos, none, some, List, [], ◌∷◌, ◌++◌, map, Text,
  codes, text_eq, ok, length, All, show, is_whitespace, if◌then◌else◌, arith,
}
use mathlib.Core.List.{Perm}
use xero_visma_v.Base.BTree.{Pairs}
use xero_visma_v.Entity.{EntityType}
use xero_visma_v.Client.Http.{Request, Response, bytes, response, Network, World}
use xero_visma_v.Client.Query.{
  no_extras, supports_page_pagination, supports_page_size, business_date_query_mode, by_where,
}
use xero_visma_v.Client.Fetch.{request_of, records_under}
use xero_visma_v.Client.Window.{DateWindow, paging, where_date_window, window_pairs}
use xero_visma_v.Client.Records.{
  parse_xero_json_date, parse_datetime_value, parse_date_value,
  filter_records_by_business_date_window,
}
use xero_visma_v.Client.Records.Laws.{window_of, windows_from, filter-windows_from}
use xero_visma_v.Client.Records.Dates.{json_date, parse_values-json_date, parse_xero_json_date-west}
use xero_visma_v.Client.Pages.{ended_on_empty_page}
use xero_visma_v.Client.Pages.Laws.{all_items}
use xero_visma_v.Client.Listing.{is_local_only, expand_records, fetch_by_business_date_tracked}
use xero_visma_v.Client.Listing.Laws.{IsInWindow, fetch_by_business_date_tracked-IsInWindow}
use xero_visma_v.Client.Listing.Expansion.{expand_records-total}
use xero_visma_v.Client.Listing.Complete.{
  pages_from, Lists, page_request, window_request, fetch_by_business_date_tracked_complete,
}
use xero_visma_v.Examples.Inputs.{days, characters, page_of, quiet, client}

-- Each record is one digit, the day of its date; the second page is empty.
abbrev digits_of : Request → Text
digits_of r = if text_eq (page_of r.query) (codes "2") then [] else codes "57"

abbrev digits_reply : Request → Response
digits_reply r = record { status = 200; headers = []; body = bytes (digits_of r); read_at = 7 }

abbrev dated : Network
dated = record { send = λ n r. response (digits_reply r); random = λ n m. 0; now = λ n. 7 }

abbrev secret : Text
secret = codes "secret"

abbrev records_of : Request → List Text
records_of r = map (λ c. c ∷ []) (digits_of r)

listed :
    (r : Request) (n : ℕ)
    → Lists characters days dated client secret EntityType.payments r (records_of r) n
unfolding records_under
listed r n = record {
  failures = 0;
  few = omega arith;
  failing = λ i h. absurd (omega arith);
  reply = digits_reply r;
  replied = refl;
  succeeds = refl;
  body = digits_of r;
  carries = refl;
  value = digits_of r;
  parses = refl;
  has = refl;
}

abbrev all_request : ℕ → Request
all_request = page_request characters days dated client secret EntityType.payments none 100

abbrev all_pages : ℕ → List Text
all_pages p = records_of (all_request p)

abbrev window : DateWindow ℕ
window = window_of characters days 4 6

abbrev asks : Pairs
asks = (codes "where", where_date_window days (codes "Date") window) ∷ []

abbrev window_requests : ℕ → Request
window_requests p =
    window_request characters days dated client secret EntityType.payments
      (asks ++ paging days EntityType.payments p 100)

abbrev window_pages : ℕ → List Text
window_pages p = records_of (window_requests p)

two_in_window : length (window_pages (1 + 0)) ≡ 2
unfolding request_of show supports_page_pagination supports_page_size
two_in_window = refl

first_in_window : (i : ℕ) → i < 1 → length (window_pages (1 + i)) ≢ 0
first_in_window zero h = λ e. cc (two_in_window, e)
first_in_window (suc i) h = absurd (omega arith)

second_in_window : length (window_pages (1 + 1)) ≡ 0
unfolding request_of show supports_page_pagination supports_page_size
second_in_window = refl

abbrev WindowFetched : Type 0
WindowFetched =
    (v : World) × (fetch_by_business_date_tracked characters days dated client secret 10
        EntityType.payments window 100 quiet
      ≡ some (
        ok (record {
          records =
              filter_records_by_business_date_window characters days EntityType.payments
                (pages_from window_pages 1 2) window;
          outcome = record { pages_fetched = 1; termination = ended_on_empty_page };
        }),
        v,
      ))
    × (v.limiter.in_flight < 6)

fetch_by_business_date_tracked_complete_example : WindowFetched
unfolding supports_page_pagination business_date_query_mode is_local_only window_pairs
fetch_by_business_date_tracked_complete_example =
    fetch_by_business_date_tracked_complete characters days dated client secret EntityType.payments
      window 100 (by_where (codes "Date")) asks window_pages (λ n p. listed (window_requests p) n)
      10 1 quiet refl refl refl refl (omega arith) (omega arith) (omega arith) first_in_window
      second_in_window

window_fetched : WindowFetched
unfolding supports_page_pagination business_date_query_mode is_local_only window_pairs
window_fetched =
    fetch_by_business_date_tracked_complete characters days dated client secret EntityType.payments
      window 100 (by_where (codes "Date")) asks window_pages (λ n p. listed (window_requests p) n)
      10 1 quiet refl refl refl refl (omega arith) (omega arith) (omega arith) first_in_window
      second_in_window

fetch_by_business_date_tracked-IsInWindow_example :
    All (IsInWindow characters days EntityType.payments window) (
      filter_records_by_business_date_window characters days EntityType.payments
        (pages_from window_pages 1 2)
        window)
fetch_by_business_date_tracked-IsInWindow_example =
    fetch_by_business_date_tracked-IsInWindow characters days dated client secret 10
      EntityType.payments window 100 quiet _ _ window_fetched.1

expand_records-total_example :
    (xs : List Text) × (v : World) × (expand_records characters days dated client secret 10
        EntityType.budgets no_extras
        (codes "a" ∷ codes "b" ∷ [])
        []
        quiet
      ≡ some (ok ([] ++ xs), v))
    × (length xs ≡ 2)
    × (v.limiter.in_flight ≡ 0)
    × (v.sent ≤ 0 + 6 * 2)
expand_records-total_example =
    expand_records-total characters days dated client secret 10 EntityType.budgets no_extras
      (codes "a" ∷ codes "b" ∷ []) [] quiet (omega arith)

filter-windows_from_example :
    Perm
      (filter_records_by_business_date_window characters days EntityType.payments
        (codes "7" ∷ codes "5" ∷ codes "9" ∷ [])
        (window_of characters days 4 9))
      (all_items
        (filter_records_by_business_date_window characters days EntityType.payments
          (codes "7" ∷ codes "5" ∷ codes "9" ∷ []))
        (windows_from characters days 4 (6 ∷ 9 ∷ [])))
filter-windows_from_example =
    filter-windows_from characters days EntityType.payments (codes "7" ∷ codes "5" ∷ codes "9" ∷ [])
      4 (6 ∷ 9 ∷ []) (omega arith, (omega arith, tt))

parse_values-json_date_example :
    (parse_datetime_value characters days (json_date (pos 86400000) (codes "+0000)/"))
      ≡ some 86400000)
    × (parse_date_value characters days (json_date (pos 86400000) (codes "+0000)/")) ≡ some 1)
unfolding is_whitespace
parse_values-json_date_example =
    parse_values-json_date characters days (json_date (pos 86400000) (codes "+0000)/"))
      (pos 86400000) b'+' (codes "0000)/") 86400000 refl refl (omega arith) refl
      (refl, (refl, (refl, (refl, (refl, (refl, (refl, tt))))))) refl

parse_xero_json_date-west_example :
    parse_xero_json_date characters days (json_date (pos 86400000) (b'-' ∷ codes "0500)/")) ≡ none
parse_xero_json_date-west_example =
    parse_xero_json_date-west characters days 86400000 (codes "0500)/")
