-- ===== src/Client/Retry.antt =====
-- core/crates/xero-client/src/retry.rs: how long to wait before the next attempt. A duration is a
-- number of milliseconds; a header map is a list of names in lower case with their values.
use xero_visma_v.Base.{
  ℕ, zero, suc, ◌+◌, ◌*◌, ◌/◌, ◌^◌, ◌≤◌, ◌<◌, min, max, Option, none, some, List, [], ◌∷◌, Text,
  codes, text_eq, parse_unsigned, if◌then◌else◌, arith,
}

abbrev pub Headers : Type 0
Headers = List (Text × Text)

-- `headers.get(name)`: the first value.
unfoldable pub get_header : Text → Headers → Option Text
get_header name [] = none
get_header name ((n, v) ∷ rest) = if text_eq n name then some v else get_header name rest

abbrev pub max_attempts : ℕ
max_attempts = 5

abbrev pub base_delay_ms : ℕ
base_delay_ms = 500

abbrev pub max_delay_ms : ℕ
max_delay_ms = 30000

abbrev pub fallback_retry_after_secs : ℕ
fallback_retry_after_secs = 30

-- The delay before the jitter. The shift is at most 6, so nothing overflows or saturates.
unfoldable pub capped : ℕ → ℕ
capped attempt = min (base_delay_ms * 2 ^ min attempt 6) max_delay_ms

-- `draw n` is `gen_range(0..n)`.
unfoldable pub exp_backoff : (ℕ → ℕ) → ℕ → ℕ
unfolding capped
exp_backoff draw attempt = capped attempt + draw (max (capped attempt / 4) 1)

-- A text that `to_str` refuses has no digits alone, so parsing refuses it too.
unfoldable pub retry_after_or_default : Headers → ℕ
unfolding get_header
retry_after_or_default headers = elim (get_header (codes "retry-after") headers) [
  | none ↦ fallback_retry_after_secs * 1000
  | some v ↦ elim (parse_unsigned (2 ^ 64) v) [
    | none ↦ fallback_retry_after_secs * 1000
    | some secs ↦ secs * 1000
  ]
]

pow_bound : (k : ℕ) → k ≤ 6 → (1 ≤ 2 ^ k) × (2 ^ k ≤ 64)
pow_bound zero h = omega arith
pow_bound (suc zero) h = omega arith
pow_bound (suc (suc zero)) h = omega arith
pow_bound (suc (suc (suc zero))) h = omega arith
pow_bound (suc (suc (suc (suc zero)))) h = omega arith
pow_bound (suc (suc (suc (suc (suc zero))))) h = omega arith
pow_bound (suc (suc (suc (suc (suc (suc zero)))))) h = omega arith
pow_bound (suc (suc (suc (suc (suc (suc (suc k))))))) h = absurd (omega arith)

-- Where the jitter is drawn below its bound, a backoff lasts at least the base delay and less than
-- a quarter over the greatest delay, whatever the attempt.
exp_backoff_bounds :
    (draw : ℕ → ℕ) (attempt : ℕ)
    → ((n : ℕ) → 0 < n → draw n < n)
    → (base_delay_ms ≤ exp_backoff draw attempt)
      × (exp_backoff draw attempt < max_delay_ms + max_delay_ms / 4)
unfolding exp_backoff capped
exp_backoff_bounds draw attempt h =
    let b = pow_bound (min attempt 6) (omega arith) in
    omega (arith, b.0, b.1, h (max (capped attempt / 4) 1) (omega arith))
