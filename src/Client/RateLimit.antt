-- ===== src/Client/RateLimit.antt =====
-- core/crates/xero-client/src/rate_limit.rs: the limiter of a tenant and the registry of limiters.
-- A lock is held for one read or write, so each operation is one step; no lock is poisoned, since
-- no code panics while it holds one.
pub mod Laws
pub mod Tasks
use xero_visma_v.Base.{
  ℕ, zero, suc, ◌+◌, ◌-◌, ◌*◌, ◌^◌, Bool, true, false, Option, none, some, List, [], ◌∷◌, Text,
  codes, text_eq, parse_unsigned, ltb, leb, ◌==◌, if◌then◌else◌,
}
use xero_visma_v.Client.Retry.{Headers, get_header}

abbrev pub proactive_throttle_threshold : ℕ
proactive_throttle_threshold = 5

abbrev pub max_concurrent_per_tenant : ℕ
max_concurrent_per_tenant = 6

pub record RateLimitState : Type 0 where
  pub min_remaining : Option ℕ
  pub day_remaining : Option ℕ
  pub app_min_remaining : Option ℕ

pub record Limiter : Type 0 where
  pub state : RateLimitState
  pub in_flight : ℕ
  pub tenant_id : Text

-- `TenantRateLimiter::new`
unfoldable pub new : Text → Limiter
new tenant_id = record {
  state = record { min_remaining = none; day_remaining = none; app_min_remaining = none };
  in_flight = 0;
  tenant_id = tenant_id;
}

abbrev pub Registry : Type 0
Registry = List (Text × Limiter)

-- `map.entry(tenant).or_insert_with(…)`: the limiter, and the registry afterwards.
unfoldable pub for_tenant : Text → Registry → Limiter × Registry
unfolding new
for_tenant t [] = (new t, (t, new t) ∷ [])
for_tenant t ((k, l) ∷ rest) =
    let found = for_tenant t rest in
    if text_eq k t then (l, (k, l) ∷ rest) else (found.0, (k, l) ∷ found.1)

-- The test of one round of the waiting loop of `acquire`.
unfoldable pub has_slot : Limiter → Bool
has_slot l = ltb l.in_flight max_concurrent_per_tenant

-- The milliseconds to sleep before a request, if any.
unfoldable pub proactive_wait : Limiter → Option ℕ
proactive_wait l = elim l.state.min_remaining [
  | none ↦ none
  | some rem ↦
      if rem == 0
      then some 2000
      else if leb rem proactive_throttle_threshold
      then some (150 * (proactive_throttle_threshold + 1 - rem))
      else none
]

-- The last step of `acquire`.
unfoldable pub take_permit : Limiter → Limiter
take_permit l = record l { in_flight = l.in_flight + 1 }

unfoldable pub release : Limiter → Limiter
release l = if ltb 0 l.in_flight then record l { in_flight = l.in_flight - 1 } else l

unfoldable pub parse_header_u32 : Headers → Text → Option ℕ
unfolding get_header
parse_header_u32 headers name = elim (get_header name headers) [
  | none ↦ none
  | some v ↦ parse_unsigned (2 ^ 32) v
]

abbrev pub or_keep : Option ℕ → Option ℕ → Option ℕ
or_keep none old = old
or_keep (some v) old = some v

unfoldable pub update_from_headers : Headers → Limiter → Limiter
unfolding parse_header_u32
update_from_headers headers l = record l {
  state = record {
    min_remaining =
        or_keep (parse_header_u32 headers (codes "x-minlimit-remaining")) l.state.min_remaining;
    day_remaining =
        or_keep (parse_header_u32 headers (codes "x-daylimit-remaining")) l.state.day_remaining;
    app_min_remaining =
        or_keep (parse_header_u32 headers (codes "x-appminlimit-remaining"))
          l.state.app_min_remaining;
  };
}
