-- ===== src/Examples/Client.antt =====
-- The theorems on requests, paging and the limiter, at concrete inputs.
use xero_visma_v.Base.{
  ℕ, zero, suc, ◌+◌, ◌≤◌, ◌<◌, ◌≡◌, refl, ◌≢◌, true, none, some, [], ◌∷◌, Text, codes, show, lt→ltb,
  arith,
}
use xero_visma_v.Entity.{EntityType}
use xero_visma_v.Client.Http.{Request, World}
use xero_visma_v.Client.RateLimit.{has_slot, take_permit}
use xero_visma_v.Client.RateLimit.Tasks.{
  idle, holding, pass, take, System, turn, Reach, here, next, start, holders, in_flight_exact,
  overshoot,
}
use xero_visma_v.Client.Request.{Policy, send_request}
use xero_visma_v.Client.Request.Laws.{is_retryable, answer, Settles, send_request-Settles}
use xero_visma_v.Client.Request.Answers.{send_request-answer}
use xero_visma_v.Client.Query.{no_extras, supports_page_pagination, extra_query_pairs}
use xero_visma_v.Client.Fetch.{
  RawPage, request_of, raw_policy, record_count_from_bytes, records_under,
}
use xero_visma_v.Client.Pages.{ended_on_empty_page, page_query, fetch_raw_numbered}
use xero_visma_v.Client.Pages.Complete.{
  page_request, Answered, Collected, fetch_raw_numbered_complete,
}
use xero_visma_v.Examples.Inputs.{
  days, characters, steady, slow, reply_of, body_of, limiter, quiet, client,
}

abbrev secret : Text
secret = codes "secret"

abbrev request : ℕ → Request
request p = page_request characters days steady client secret EntityType.invoices none no_extras p

abbrev content : ℕ → Text
content p = body_of (request p)

answered :
    (n p : ℕ)
    → Answered characters days steady client secret EntityType.invoices none no_extras content n p
answered n p = record {
  failures = 0;
  few = omega arith;
  failing = λ i h. absurd (omega arith);
  reply = reply_of (request p);
  replied = refl;
  succeeds = refl;
  carries = refl;
}

two_records : record_count_from_bytes characters EntityType.invoices (content 1) ≡ 2
unfolding record_count_from_bytes records_under page_query request_of extra_query_pairs show
two_records = refl

first_page :
    (i : ℕ) → i < 1 → record_count_from_bytes characters EntityType.invoices (content (1 + i)) ≢ 0
first_page zero h = λ e. cc (two_records, e)
first_page (suc i) h = absurd (omega arith)

second_page : record_count_from_bytes characters EntityType.invoices (content (1 + 1)) ≡ 0
unfolding record_count_from_bytes records_under page_query request_of extra_query_pairs show
second_page = refl

fetch_raw_numbered_complete_example :
    Collected characters days steady client secret EntityType.invoices none no_extras content
      answered 2
      (record { pages_fetched = 1; termination = ended_on_empty_page })
      (fetch_raw_numbered characters days steady client secret 10 EntityType.invoices none no_extras
        quiet)
unfolding supports_page_pagination
fetch_raw_numbered_complete_example =
    fetch_raw_numbered_complete characters days steady client secret EntityType.invoices none
      no_extras content answered 10 1 quiet refl (omega arith) (omega arith) (omega arith)
      first_page second_page

abbrev policy : Policy RawPage
policy = raw_policy characters EntityType.invoices 1

send_request-Settles_example : Settles quiet 6 (send_request (slow 9) policy (request 1) quiet)
send_request-Settles_example = send_request-Settles (slow 9) policy (request 1) quiet (omega arith)

two_failures : (i : ℕ) → i < 2 → is_retryable policy ((slow 2).send (0 + i) (request 1)) ≡ true
unfolding is_retryable raw_policy
two_failures i h = rw (lt→ltb (0 + i) 2 (omega arith)) refl

send_request-answer_example :
    (v : World) × (send_request (slow 2) policy (request 1) quiet
      ≡ some (answer policy ((slow 2).send (0 + 2) (request 1)), v))
    × (v.sent ≡ 0 + 2 + 1)
    × (v.limiter.in_flight ≡ 0)
unfolding is_retryable raw_policy
send_request-answer_example =
    send_request-answer (slow 2) policy (request 1) 2 quiet (omega arith) (omega arith) two_failures
      refl

abbrev one_holds : System
one_holds = record { limiter = take_permit limiter; tasks = holding ∷ idle ∷ [] }

one_holds-Reach : Reach (start limiter 2) one_holds
unfolding has_slot take_permit
one_holds-Reach =
    next (next here (turn [] (idle ∷ []) (pass refl))) (turn [] (idle ∷ []) (take refl))

in_flight_exact_example :
    (one_holds.limiter.in_flight ≡ holders one_holds.tasks) × (one_holds.limiter.in_flight ≤ 2)
in_flight_exact_example = in_flight_exact refl one_holds-Reach

overshoot_example : (s : System) × Reach (start limiter 9) s × (s.limiter.in_flight ≡ 9)
overshoot_example = overshoot limiter 9 refl
