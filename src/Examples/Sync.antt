-- ===== src/Examples/Sync.antt =====
-- The theorems on a job and its fan-out, at concrete inputs.
use xero_visma_v.Base.{
  ℕ, ◌*◌, text_eq, ◌+◌, ◌≤◌, ◌≡◌, refl, max, pos, Bool, Option, none, some, List, [], ◌∷◌, map,
  length, Text, codes, ok, arith,
}
use xero_visma_v.Entity.{EntityType, entity_eq, is_date_windowable, is_report, xero_path}
use xero_visma_v.Client.Http.{World}
use xero_visma_v.Client.Http.{with_permit, acquire, learn}
use xero_visma_v.Client.Retry.{get_header}
use xero_visma_v.Client.RateLimit.{
  has_slot, proactive_wait, take_permit, release, update_from_headers, parse_header_u32,
}
use xero_visma_v.Client.Request.{
  send_request, send_loop, decide, decide_response, decide_modified, after_attempt,
}
use xero_visma_v.Client.Query.{
  supports_page_pagination, extra_query_pairs, where_pairs, is_bills, trimmed, pair_if_some,
  flag_if, takes_archived, takes_summary, statuses_key,
}
use xero_visma_v.Client.Fetch.{
  fetch_raw_with_query, raw_policy, record_count_from_bytes, records_under, request_of,
}
use xero_visma_v.Client.Pages.{fetch_raw_numbered}
use xero_visma_v.Client.Pages.Journals.{fetch_raw_pages, is_journals}
use xero_visma_v.Gcs.Sink.Writes.{Bucket, gcs_sink, put_raw, upload_object}
use xero_visma_v.Sync.Mode.{rolling_window, fetch_params}
use xero_visma_v.Sync.Job.{
  EntityOutcome, Done, put_pages, upload_pages, run_listing, run_entity, isolated, run_unit,
}
use xero_visma_v.Sync.Job.Outcomes.{IsIsolated, run_unit-IsIsolated}
use xero_visma_v.Gcs.Store.{gcs_sink-IsStore}
use xero_visma_v.Sync.Job.Held.{Keeps, run_entity-Keeps}
use xero_visma_v.Sync.Job.Uploads.{IsUploaded, run_entity-IsUploaded}
use xero_visma_v.Sync.Pump.{
  UnitOfWork, Pump, prime, clamped, units, on_outcome, ends, Reaches, primed, step,
}
use xero_visma_v.Sync.Pump.Laws.{count, Reaches-bounded, Reaches-complete}
use xero_visma_v.Sync.Run.{Returns, unit_of, is_unit, run_outcomes}
use xero_visma_v.Examples.Inputs.{days, days-HasIso, characters, steady, quiet, context}

-- No upload is refused.
abbrev accepts : ℕ → Option Text
accepts n = none

abbrev print : List (Text × Text) → Text
print m = codes "{}"

abbrev no_objects : Bucket
no_objects = record { objects = []; uploads = 0 }

abbrev run : Done Bucket EntityOutcome
run =
    run_entity characters days steady (gcs_sink accepts print) 10 context (codes "t")
      EntityType.accounts quiet no_objects

abbrev no_outcome : EntityOutcome
no_outcome = record {
  tenant = [];
  endpoint = [];
  pages = 0;
  records = 0;
  termination = [];
  error = none;
}

abbrev outcome_of : Done Bucket EntityOutcome → EntityOutcome
outcome_of (some (ok o, w, b)) = o
outcome_of _ = no_outcome

abbrev world_of : Done Bucket EntityOutcome → World
world_of (some (x, w, b)) = w
world_of none = quiet

abbrev bucket_of : Done Bucket EntityOutcome → Bucket
bucket_of (some (x, w, b)) = b
bucket_of none = no_objects

run-counts :
    ((outcome_of run).records ≡ 2)
    × ((outcome_of run).pages ≡ 1)
    × (length (bucket_of run).objects ≡ 2)
unfolding run_entity run_listing is_report fetch_params is_date_windowable fetch_raw_pages
    is_journals fetch_raw_numbered supports_page_pagination fetch_raw_with_query send_request
    send_loop acquire has_slot with_permit proactive_wait take_permit decide decide_response
    decide_modified after_attempt learn update_from_headers parse_header_u32 get_header release
    raw_policy record_count_from_bytes records_under xero_path upload_pages put_pages put_raw
    upload_object request_of extra_query_pairs where_pairs is_bills trimmed pair_if_some flag_if
    takes_archived takes_summary statuses_key
run-counts = (refl, refl, refl)

run-ok : run ≡ some (ok (outcome_of run), world_of run, bucket_of run)
unfolding run_entity run_listing is_report fetch_params is_date_windowable fetch_raw_pages
    is_journals fetch_raw_numbered supports_page_pagination fetch_raw_with_query send_request
    send_loop acquire has_slot with_permit proactive_wait take_permit decide decide_response
    decide_modified after_attempt learn update_from_headers parse_header_u32 get_header release
    raw_policy record_count_from_bytes records_under xero_path upload_pages put_pages put_raw
    upload_object request_of extra_query_pairs where_pairs is_bills trimmed pair_if_some flag_if
    takes_archived takes_summary statuses_key
run-ok = refl

run_entity-IsUploaded_example :
    IsUploaded accepts print characters days steady 10 context
      (codes "t")
      EntityType.accounts
      quiet
      no_objects
      (outcome_of run)
      (world_of run)
      (bucket_of run)
unfolding is_report
run_entity-IsUploaded_example =
    run_entity-IsUploaded accepts print characters days steady 10 context (codes "t")
      EntityType.accounts refl quiet no_objects (outcome_of run) (world_of run) (bucket_of run)
      run-ok

run_entity-Keeps_example :
    Keeps print characters days steady
      (gcs_sink accepts print)
      (gcs_sink-IsStore accepts print)
      10
      context
      (codes "t")
      EntityType.accounts
      quiet
      no_objects
      (world_of run)
      (bucket_of run)
unfolding is_report
run_entity-Keeps_example =
    run_entity-Keeps print characters days steady (gcs_sink accepts print)
      (gcs_sink-IsStore accepts print) 10 context (codes "t") EntityType.accounts days-HasIso
      (omega arith) refl quiet no_objects (outcome_of run) (world_of run) (bucket_of run) run-ok

unit_run-ok :
    run_unit characters days steady
      (gcs_sink accepts print)
      10
      context
      (codes "t")
      EntityType.accounts
      quiet
      no_objects
    ≡ some (outcome_of run, world_of run, bucket_of run)
unfolding run_unit isolated
unit_run-ok = rw run-ok

-- Every upload is refused, so that `run_entity` fails.
abbrev refuses : ℕ → Option Text
refuses n = some (codes "503")

run_unit-IsIsolated_example :
    IsIsolated
      (codes "t")
      EntityType.accounts
      (run_entity characters days steady
        (gcs_sink refuses print)
        10
        context
        (codes "t")
        EntityType.accounts
        quiet
        no_objects)
      (run_unit characters days steady
        (gcs_sink refuses print)
        10
        context
        (codes "t")
        EntityType.accounts
        quiet
        no_objects)
run_unit-IsIsolated_example =
    run_unit-IsIsolated characters days steady (gcs_sink refuses print) 10 context (codes "t")
      EntityType.accounts quiet no_objects

-- A run of one unit.
abbrev one_outcome : Pump EntityOutcome
one_outcome = record { pending = []; in_flight = []; outcomes = outcome_of run ∷ [] }

one_outcome-Reaches :
    Reaches
      (Returns characters days steady (gcs_sink accepts print) 10 context)
      6
      (units (codes "t" ∷ []) (EntityType.accounts ∷ []))
      one_outcome
unfolding units prime clamped on_outcome
one_outcome-Reaches = step primed (
    ends [] (codes "t", EntityType.accounts) [] (outcome_of run)
      (quiet, no_objects, world_of run, bucket_of run, unit_run-ok))

run_outcomes_example :
    count (is_unit (codes "t") EntityType.accounts) (map unit_of one_outcome.outcomes)
    ≡ count (λ t. text_eq t (codes "t")) (codes "t" ∷ [])
      * count (λ x. entity_eq x EntityType.accounts) (EntityType.accounts ∷ [])
run_outcomes_example =
    run_outcomes characters days steady (gcs_sink accepts print) 10 context 6 (codes "t" ∷ [])
      (EntityType.accounts ∷ []) (codes "t") EntityType.accounts one_outcome-Reaches refl

-- One unit at a time, each of which yields itself.
abbrev asked : List UnitOfWork
asked = units (codes "t" ∷ []) (EntityType.accounts ∷ EntityType.invoices ∷ [])

abbrev Itself : UnitOfWork → UnitOfWork → Type 0
Itself u o = o ≡ u

abbrev ended : Pump UnitOfWork
ended = record {
  pending = [];
  in_flight = [];
  outcomes = (codes "t", EntityType.accounts) ∷ (codes "t", EntityType.invoices) ∷ [];
}

asked-ended : Reaches Itself 1 asked ended
unfolding units prime clamped on_outcome
asked-ended =
    step
      (step primed
        (ends [] (codes "t", EntityType.accounts) [] (codes "t", EntityType.accounts) refl))
      (ends [] (codes "t", EntityType.invoices) [] (codes "t", EntityType.invoices) refl)

abbrev is_accounts : UnitOfWork → Bool
is_accounts (t, e) = entity_eq e EntityType.accounts

Reaches-complete_example : count is_accounts (map (λ o. o) ended.outcomes) ≡ count is_accounts asked
Reaches-complete_example =
    Reaches-complete Itself (λ o. o) (λ u o h. h) 1 asked is_accounts asked-ended refl

Reaches-bounded_example :
    (length ended.in_flight ≤ 6)
    × (length ended.in_flight ≤ max 1 1)
    × ((p : UnitOfWork → Bool)
        → count p ended.pending + count p ended.in_flight + count p (map (λ o. o) ended.outcomes)
          ≡ count p asked)
Reaches-bounded_example = Reaches-bounded Itself (λ o. o) (λ u o h. h) 1 asked asked-ended

month_window : rolling_window days 100 (pos 30) ≡ some (71, 100)
unfolding rolling_window
month_window = refl
