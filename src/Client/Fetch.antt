-- ===== src/Client/Fetch.antt =====
-- The calls of core/crates/xero-client/src/lib.rs that send one request: how each builds it, and
-- what it makes of the response.
use xero_visma_v.Base.{
  ℕ, Bool, true, false, not, ◌&&◌, Option, none, some, List, [], ◌∷◌, ◌++◌, map, Text, codes,
  length, Result, ok, err, if◌then◌else◌, map_option, and_then, ok?, or_nil,
}
use xero_visma_v.Base.BTree.{Pairs}
use xero_visma_v.Errors.{Error, xero_api, config}
use xero_visma_v.Foreign.{Time, Chrono, Json}
use xero_visma_v.Entity.{EntityType, xero_path, as_str, is_report}
use xero_visma_v.Client.Http.{Request, Body, bytes, broken, Network, Run, fail}
use xero_visma_v.Client.Request.{Policy, send_request}
use xero_visma_v.Client.Query.{ExtraQuery, resolve_report_params, validate_report_params, flag_if}

pub record RawPage : Type 0 where
  pub page : ℕ
  pub body : Text
  pub http_status : ℕ
  pub record_count : ℕ
  pub fetched_at : Time

-- `XeroApiClient`, less its HTTP client
pub record XeroApiClient : Type 0 where
  pub tenant_id : Text
  pub send_tenant_header : Bool

-- `XeroApiClient::new`
unfoldable pub new : Text → XeroApiClient
new tenant = record { tenant_id = tenant; send_tenant_header = true }

-- What every loop puts into its request.
unfoldable pub request_of : XeroApiClient → Text → Text → Pairs → Option Text → Request
request_of client token path query since = record {
  path = path;
  query = query;
  access_token = token;
  tenant_header = if client.send_tenant_header then some client.tenant_id else none;
  if_modified_since = since;
}

unfoldable pub is_budgets : EntityType → Bool
is_budgets EntityType.budgets = true
is_budgets _ = false

abbrev or_zero : Option ℕ → ℕ
or_zero none = 0
or_zero (some n) = n

-- `resp.json()`
abbrev parsed {ℓ κ} :
    {A : Type ℓ} {B : Type κ} → Result Text A → (A → Result Error B) → Result Error B
parsed (ok v) f = f v
parsed (err message) f = err (xero_api message)

-- A failure to read the body is an error.
abbrev with_bytes {ℓ} : {A : Type ℓ} → Body → (Text → Result Error A) → Result Error A
with_bytes (bytes s) f = f s
with_bytes (broken e) f = err (xero_api e)

module _ (J : Json) where
  -- `body.get(path).and_then(as_array)`
  unfoldable pub records_under : Text → J.Value → Option (List J.Value)
  records_under path v = and_then (J.get v path) J.as_array

  unfoldable pub record_count_from_bytes : EntityType → Text → ℕ
  unfolding records_under
  record_count_from_bytes e body =
      or_zero
        (and_then (ok? (J.from_slice body)) λ v. map_option length (records_under (xero_path e) v))

  -- A 304 is an empty page, so that paging stops.
  unfoldable pub raw_policy : EntityType → ℕ → Policy RawPage
  raw_policy e page = record {
    label = xero_path e;
    not_modified = some (λ r. record {
      page = page;
      body = [];
      http_status = r.status;
      record_count = 0;
      fetched_at = r.read_at;
    });
    retries_server_errors = true;
    accept = λ r. with_bytes r.body λ body. ok (record {
      page = page;
      body = body;
      http_status = r.status;
      record_count = record_count_from_bytes e body;
      fetched_at = r.read_at;
    });
  }

  module _ (C : Chrono) (N : Network) (client : XeroApiClient) (token : Text) where
    unfoldable pub fetch_raw_with_query : EntityType → Option Time → Pairs → ℕ → Run RawPage
    unfolding raw_policy request_of
    fetch_raw_with_query e modified_after query page =
        send_request N (raw_policy e page)
          (request_of client token (xero_path e) query (map_option C.since modified_after))

    -- A report is one page that counts as one record.
    unfoldable pub report_policy : EntityType → Policy RawPage
    report_policy e = record {
      label = xero_path e;
      not_modified = none;
      retries_server_errors = true;
      accept = λ r. with_bytes r.body λ body. ok (record {
        page = 1;
        body = body;
        http_status = r.status;
        record_count = 1;
        fetched_at = r.read_at;
      });
    }

    unfoldable pub fetch_report_raw : EntityType → ExtraQuery → Text → Run RawPage
    unfolding report_policy request_of
    fetch_report_raw e extras today w =
        let params = resolve_report_params e today extras.extra in
        if not (is_report e)
        then fail
            (config (
              as_str e ++ codes " is not a report entity; fetch_report_raw only handles Reports/*"))
            w
        else elim (validate_report_params e params) [
          | err message ↦ fail message w
          | ok _ ↦
              send_request N (report_policy e) (request_of client token (xero_path e) params none) w
        ]

    -- The list endpoints: a 304 or a missing array is no records.
    unfoldable pub records_policy : EntityType → Policy (List J.Value)
    unfolding records_under
    records_policy e = record {
      label = xero_path e;
      not_modified = some (λ r. []);
      retries_server_errors = true;
      accept = λ r.
          with_bytes r.body
            λ body. parsed (J.from_slice body) λ v. ok (or_nil (records_under (xero_path e) v));
    }

    -- Also `fetch_records_with_query`, which differs in the type of its keys.
    unfoldable pub fetch_records_with_owned_query :
        EntityType → Option Time → Pairs → Run (List J.Value)
    unfolding records_policy request_of
    fetch_records_with_owned_query e modified_after query =
        send_request N (records_policy e)
          (request_of client token (xero_path e) query (map_option C.since modified_after))

    abbrev first {ℓ} : {A : Type ℓ} → List A → Option A
    first [] = none
    first (x ∷ xs) = some x

    -- One record. Server errors are not retried here.
    unfoldable pub detail_policy : EntityType → Text → Policy (Option J.Value)
    unfolding records_under
    detail_policy e id = record {
      label = xero_path e ++ codes "/" ++ id;
      not_modified = none;
      retries_server_errors = false;
      accept = λ r. with_bytes r.body λ body.
          parsed (J.from_slice body) λ v. ok (and_then (records_under (xero_path e) v) first);
    }

    unfoldable pub fetch_one_by_id : EntityType → Text → ExtraQuery → Run (Option J.Value)
    unfolding detail_policy request_of flag_if is_budgets
    fetch_one_by_id e id extra = send_request N (detail_policy e id) (
        request_of client token (xero_path e ++ codes "/" ++ id)
          (flag_if (extra.expand_lines && is_budgets e) (codes "BudgetLines") ++ extra.extra) none)

    -- The report with the parameters and the time of the fetch.
    unfoldable pub wrap_report_record : Pairs → J.Value → Time → J.Value
    wrap_report_record params raw now = J.object (
        (codes "_params", J.object (map (λ (k, v). (k, J.string v)) params))
        ∷ (codes "_run_date", J.string (C.rfc3339 now))
        ∷ (codes "Report", raw)
        ∷ [])

    unfoldable pub wrapped_policy : EntityType → Pairs → Policy J.Value
    unfolding wrap_report_record
    wrapped_policy e params = record {
      label = xero_path e;
      not_modified = none;
      retries_server_errors = true;
      accept = λ r.
          with_bytes r.body
            λ body. parsed (J.from_slice body) λ v. ok (wrap_report_record params v r.read_at);
    }

    -- The one record of the `FetchResult`; its outcome is that of a single page.
    unfoldable pub fetch_report : EntityType → ExtraQuery → Text → Run J.Value
    unfolding wrapped_policy request_of
    fetch_report e extra today w =
        let params = resolve_report_params e today extra.extra in
        if not (is_report e)
        then fail
            (config
              (as_str e ++ codes " is not a report entity; fetch_report only handles Reports/*"))
            w
        else elim (validate_report_params e params) [
          | err message ↦ fail message w
          | ok _ ↦
              send_request N (wrapped_policy e params)
                (request_of client token (xero_path e) params none) w
        ]
