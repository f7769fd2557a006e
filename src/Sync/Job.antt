-- ===== src/Sync/Job.antt =====
-- core/crates/xero-sync/src/lib.rs: the work on one (tenant, entity), with the outcomes and manifests
-- of xero-gcs/src/manifest.rs. A panic, and a wait for the limiter that does not end, are `none`.
pub mod Branches
pub mod Uploads
pub mod Outcomes
pub mod Contents
pub mod Held
use xero_visma_v.Base.{
  ℕ, zero, suc, ◌+◌, Bool, true, false, Option, none, some, List, [], ◌∷◌, Text, codes, Result, ok,
  err, if◌then◌else◌,
}
use xero_visma_v.Base.BTree.{Pairs, get}
use xero_visma_v.Errors.{Error, error_text, GcsError, gcs_error_text}
use xero_visma_v.Foreign.{Time, Chrono, Json}
use xero_visma_v.Config.{GcsConfig, SyncConfig, or_default}
use xero_visma_v.Entity.{EntityType, as_str, is_report}
use xero_visma_v.Client.Http.{Network, World, Run}
use xero_visma_v.Client.Query.{ExtraQuery, no_extras}
use xero_visma_v.Client.Fetch.{RawPage, XeroApiClient, fetch_report_raw}
use xero_visma_v.Client.Pages.{PaginationOutcome, reason_str}
use xero_visma_v.Client.Pages.Journals.{fetch_raw_pages}
use xero_visma_v.Gcs.Keys.{object_key, report_object_key}
use xero_visma_v.Gcs.Meta.{ObjectMeta, metadata, report_metadata}
use xero_visma_v.Gcs.Sink.Writes.{RawSink}
use xero_visma_v.Sync.Mode.{SyncMode, FetchParams, fetch_params, sync_type, reports}
use xero_visma_v.Sync.Report.{ReportSpec, report_params, params_signature}

pub record EntityOutcome : Type 0 where
  pub tenant : Text
  pub endpoint : Text
  pub pages : ℕ
  pub records : ℕ
  pub termination : Text
  pub error : Option Text

-- A `String` error, with what the client and the sink hold after it.
abbrev pub Done {ℓ} : Type 0 → Type ℓ → Type ℓ
Done S A = Option (Result Text A × World × S)

-- `&s[..s.len().min(6)]` of a run id, whose characters are ASCII
unfoldable pub shortened : ℕ → Text → Text
shortened zero s = []
shortened (suc n) [] = []
shortened (suc n) (c ∷ s) = c ∷ shortened n s

-- What a run gives to each of its units, with the settings of the job. The two instants are the
-- calls of the clock, and `today` is its date as text.
pub record Context (C : Chrono) : Type 0 where
  pub gcs : GcsConfig
  pub cfg : SyncConfig
  pub org_names : Pairs
  pub token_for : Text → Result Text Text
  pub run_id : Text
  pub run_date : C.Date
  pub ts : Text
  pub mode : SyncMode C.Date
  pub synced_at : Text
  pub now : Time
  pub today : Text

-- `put.await.map_err(|e| e.to_string())?; …`
abbrev pub then_put {ℓ} :
    {A : Type ℓ} {S : Type 0}
    → Result GcsError (Unit {0}) × S
    → (S → Result Text A × S)
    → Result Text A × S
then_put (ok _, s) next = next s
then_put (err e, s) next = (err (gcs_error_text e), s)

-- The outcome once everything is written, or the error.
abbrev pub finished {ℓ} :
    {A : Type ℓ} {S : Type 0}
    → Result Text A × S
    → World
    → (A → EntityOutcome)
    → Done S EntityOutcome
finished (ok a, s) w f = some (ok (f a), w, s)
finished (err message, s) w f = some (err message, w, s)

module _ (S : RawSink) (key_of : RawPage → Text) (meta_of : RawPage → ObjectMeta) where
  -- `for page in &pages { … }`, with the records so far.
  unfoldable pub put_pages : List RawPage → ℕ → S.State → Result Text ℕ × S.State
  put_pages [] total s = (ok total, s)
  put_pages (p ∷ ps) total s =
      then_put (S.put_raw (key_of p) p.body (meta_of p) s) (put_pages ps (total + p.record_count))

module _ (J : Json) (C : Chrono) (N : Network) (S : RawSink) (cap : ℕ) (X : Context C) where
  unfoldable pub page_key : Text → EntityType → RawPage → Text
  unfolding shortened object_key
  page_key tenant e p =
      object_key C X.gcs.prefix tenant (as_str e) X.run_date X.ts (shortened 6 X.run_id) p.page

  unfoldable pub page_meta : Text → EntityType → FetchParams → RawPage → ObjectMeta
  unfolding metadata sync_type
  page_meta tenant e params p = metadata (record {
    tenant_id = tenant;
    org_name = or_default (get tenant X.org_names) [];
    endpoint = as_str e;
    sync_type = sync_type C X.mode;
    modified_after = params.modified_after_str;
    business_from = params.business_from;
    business_to = params.business_to;
    where_filter = params.where_filter;
    page = p.page;
    record_count = p.record_count;
    http_status = p.http_status;
    run_id = X.run_id;
    synced_at = X.synced_at;
  })

  -- After the fetch: the uploads, and the outcome.
  unfoldable pub upload_pages :
      Text
      → EntityType
      → FetchParams
      → Option (Result Error (List RawPage × PaginationOutcome) × World)
      → S.State
      → Done S.State EntityOutcome
  unfolding put_pages page_key page_meta reason_str
  upload_pages tenant e params none s = none
  upload_pages tenant e params (some (err error, w)) s = some (err (error_text error), w, s)
  upload_pages tenant e params (some (ok (pages, outcome), w)) s =
      finished (put_pages S (page_key tenant e) (page_meta tenant e params) pages 0 s) w (λ total.
        record {
          tenant = tenant;
          endpoint = as_str e;
          pages = outcome.pages_fetched;
          records = total;
          termination = reason_str outcome.termination;
          error = none;
        })

  unfoldable pub as_of_date : SyncMode C.Date → C.Date
  as_of_date (reports as_of) = as_of
  as_of_date _ = X.run_date

  unfoldable pub upload_report :
      Text
      → EntityType
      → ReportSpec
      → Option (Result Error RawPage × World)
      → S.State
      → Done S.State EntityOutcome
  unfolding shortened report_object_key report_metadata params_signature
  upload_report tenant e spec none s = none
  upload_report tenant e spec (some (err error, w)) s = some (err (error_text error), w, s)
  upload_report tenant e spec (some (ok page, w)) s =
      finished
        (then_put
          (S.put_raw
            (report_object_key C X.gcs.prefix tenant (as_str e) X.run_date X.ts
              (shortened 6 X.run_id) spec.period_key)
            page.body
            (report_metadata (record {
              tenant_id = tenant;
              org_name = or_default (get tenant X.org_names) [];
              endpoint = as_str e;
              report = as_str e;
              report_date = spec.report_date;
              report_from = spec.report_from;
              report_to = spec.report_to;
              report_params = params_signature spec;
              http_status = page.http_status;
              record_count = page.record_count;
              run_id = X.run_id;
              synced_at = X.synced_at;
            }))
            s)
          (λ s1. (ok page.record_count, s1)))
        w
        (λ total. record {
          tenant = tenant;
          endpoint = as_str e;
          pages = 1;
          records = total;
          termination = codes "report-snapshot";
          error = none;
        })

  -- `XeroApiClient::new_with_tenant_header(tenant, false)`
  abbrev pub api_for : Text → XeroApiClient
  api_for tenant = record { tenant_id = tenant; send_tenant_header = false }

  unfoldable pub run_report :
      Text → Text → EntityType → World → S.State → Done S.State EntityOutcome
  unfolding as_of_date upload_report report_params fetch_report_raw
  run_report token tenant e w s =
      let spec = report_params C e (as_of_date X.mode) in
      upload_report tenant e spec
        (fetch_report_raw J C N (api_for tenant) token e (record no_extras { extra = spec.extra })
          X.today w)
        s

  unfoldable pub run_listing :
      Text → Text → EntityType → World → S.State → Done S.State EntityOutcome
  unfolding upload_pages fetch_params fetch_raw_pages
  run_listing token tenant e w s =
      elim (fetch_params C X.mode e X.now X.run_date X.cfg.window_days) [
        | none ↦ none
        | some params ↦
            upload_pages tenant e params
              (fetch_raw_pages J C N (api_for tenant) token cap e params.modified_after
                params.extras w)
              s
      ]

  unfoldable pub run_entity : Text → EntityType → World → S.State → Done S.State EntityOutcome
  unfolding run_report run_listing
  run_entity tenant e w s = elim (X.token_for tenant) [
    | err message ↦ some (err message, w, s)
    | ok token ↦
        if is_report e then run_report token tenant e w s else run_listing token tenant e w s
  ]

  unfoldable pub error_outcome : Text → EntityType → Text → EntityOutcome
  error_outcome tenant e message = record {
    tenant = tenant;
    endpoint = as_str e;
    pages = 0;
    records = 0;
    termination = codes "error";
    error = some message;
  }

  -- An error becomes an outcome.
  unfoldable pub isolated :
      Text → EntityType → Done S.State EntityOutcome → Option (EntityOutcome × World × S.State)
  unfolding error_outcome
  isolated tenant e none = none
  isolated tenant e (some (ok outcome, w, s)) = some (outcome, w, s)
  isolated tenant e (some (err message, w, s)) = some (error_outcome tenant e message, w, s)

  unfoldable pub run_unit :
      Text → EntityType → World → S.State → Option (EntityOutcome × World × S.State)
  unfolding run_entity isolated
  run_unit tenant e w s = isolated tenant e (run_entity tenant e w s)
