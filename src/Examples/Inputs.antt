-- ===== src/Examples/Inputs.antt =====
-- Inputs of the examples: a calendar whose dates are numbers of days, a server of small pages, and
-- the settings of a run.
use xero_visma_v.Base.{
  ℕ, ◌+◌, ◌-◌, ◌*◌, ◌/◌, ◌≤◌, ◌<◌, ◌≡◌, sym, ap, ◌∙◌, pos, pos_part, Bool, true, false, none, some,
  List, [], ◌∷◌, map, Text, codes, text_eq, show, parse_unsigned, read, read-show, show-IsDigit,
  IsDigit, All-weaken, ok, err, leb, ltb, if◌then◌else◌, arith, ◌≢◌,
}
use xero_visma_v.Foreign.{Chrono, Json}
use xero_visma_v.Foreign.Laws.{IsCalendar, HasIso, HasLast}
use xero_visma_v.Config.{SyncConfig}
use xero_visma_v.Client.Http.{Request, Response, bytes, response, Network, World}
use xero_visma_v.Client.RateLimit.{Limiter}
use xero_visma_v.Client.Fetch.{XeroApiClient}
use xero_visma_v.Sync.Mode.{backfill}
use xero_visma_v.Sync.Job.{Context}

-- Dates are days, the last of them is day 3000, and every month has 30 days.
abbrev pub days : Chrono
days = record {
  Date = ℕ;
  day = λ d. d;
  year = λ d. pos 2026;
  month = λ d. 1;
  day_of_month = λ d. d + 1;
  iso = show;
  checked_add_months = λ d m. if leb (d + 30 * m) 3000 then some (d + 30 * m) else none;
  checked_sub_days = λ d k. if leb k d then some (d - k) else none;
  with_day_one = λ d. some d;
  max_date = 3000;
  parse_date = parse_unsigned 3001;
  date_from_str = parse_unsigned 3001;
  date_of_local = λ s. none;
  from_rfc3339 = λ s. none;
  timestamp_millis = λ n. some (pos_part n);
  date_naive = λ t. t / 86400000;
  midnight = λ d. d * 86400000;
  minus_days = λ t n. t;
  rfc3339 = show;
  compact = show;
  since = show;
}

pub days-IsCalendar : IsCalendar days
days-IsCalendar = record {
  day_injective = λ d e h. h;
  months_later = λ d e m positive h. months d e m positive h;
  sub_days_some = λ d k h. (d - k, ground arith, omega arith);
}
  where
    months :
        (d e m : ℕ)
        → 1 ≤ m
        → (if leb (d + 30 * m) 3000 then some (d + 30 * m) else none) ≡ some e
        → d < e
    months d e m positive h = ground (arith, h)

pub days-HasIso : HasIso days
days-HasIso = record {
  iso_injective = λ d e h. sym (read-show d) ∙ ap (read 0) h ∙ read-show e;
  iso_slash_free =
      λ d. All-weaken IsDigit (λ c. c ≢ b'/') (λ c h. omega arith) (show d) (show-IsDigit d);
}

-- Two dates, the greatest of which is `true`.
abbrev pub two_dates : Chrono
two_dates = record {
  Date = Bool;
  day = λ b. if b then 1 else 0;
  year = λ b. pos 2026;
  month = λ b. 1;
  day_of_month = λ b. if b then 2 else 1;
  iso = λ b. if b then codes "2026-01-02" else codes "2026-01-01";
  checked_add_months = λ b m. none;
  checked_sub_days = λ b k. none;
  with_day_one = λ b. some false;
  max_date = true;
  parse_date = λ s. none;
  date_from_str = λ s. none;
  date_of_local = λ s. none;
  from_rfc3339 = λ s. none;
  timestamp_millis = λ n. none;
  date_naive = λ t. ltb 0 t;
  midnight = λ b. if b then 1 else 0;
  minus_days = λ t n. t;
  rfc3339 = show;
  compact = show;
  since = show;
}

pub two_dates-HasLast : HasLast two_dates
two_dates-HasLast = record { last = at_most }
  where
    at_most : (b : Bool) → (if b then 1 else 0) ≤ 1
    at_most true = omega arith
    at_most false = omega arith

-- A body is an array of its characters.
abbrev pub characters : Json
characters = record {
  Value = Text;
  from_slice = λ s. ok s;
  get = λ v k. some v;
  as_array = λ v. some (map (λ c. c ∷ []) v);
  as_str = λ v. some v;
  as_i64 = λ v. none;
  string = λ s. s;
  object = λ fields. [];
  pretty = λ fields. codes "{}";
}

-- The value of `page`.
abbrev pub page_of : List (Text × Text) → Text
page_of [] = []
page_of ((k, v) ∷ rest) = if text_eq k (codes "page") then v else page_of rest

-- The second page is empty, and every other one has two records.
abbrev pub body_of : Request → Text
body_of r = if text_eq (page_of r.query) (codes "2") then [] else codes "ab"

abbrev pub reply_of : Request → Response
reply_of r = record { status = 200; headers = []; body = bytes (body_of r); read_at = 7 }

abbrev pub steady : Network
steady = record { send = λ n r. response (reply_of r); random = λ n m. 0; now = λ n. 7 }

-- The same server, overloaded at its first two requests.
abbrev pub overloaded : Response
overloaded = record { status = 503; headers = []; body = bytes []; read_at = 7 }

abbrev pub slow : ℕ → Network
slow failures = record {
  send = λ n r. response (if ltb n failures then overloaded else reply_of r);
  random = λ n m. 0;
  now = λ n. 7;
}

abbrev pub limiter : Limiter
limiter = record {
  state = record { min_remaining = some 3; day_remaining = none; app_min_remaining = none };
  in_flight = 0;
  tenant_id = codes "t";
}

abbrev pub quiet : World
quiet = record { sent = 0; limiter = limiter; slept = [] }

abbrev pub client : XeroApiClient
client = record { tenant_id = codes "t"; send_tenant_header = false }

abbrev pub settings : SyncConfig
settings = record {
  window_days = pos 3;
  rolling_full_tight_days = pos 30;
  rolling_full_wide_days = pos 90;
  max_concurrent = 6;
}

abbrev pub context : Context days
context = record {
  gcs = record { bucket = codes "b"; prefix = codes "raw/xero" };
  cfg = settings;
  org_names = (codes "t", codes "Acme") ∷ [];
  token_for = λ t. if text_eq t (codes "t") then ok (codes "secret") else err (codes "auth: none");
  run_id = codes "5f3c9a2e";
  run_date = 100;
  ts = codes "20260101T000000Z";
  mode = backfill 40 100;
  synced_at = codes "now";
  now = 7;
  today = codes "100";
}
