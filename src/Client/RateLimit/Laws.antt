-- ===== src/Client/RateLimit/Laws.antt =====
-- The throttle, the registry and the reading of headers.
use xero_visma_v.Base.{
  ℕ, ◌≤◌, ◌<◌, ◌≡◌, ◌⊎◌, Option, none, some, [], ◌∷◌, Text, text_eq, text_eq_iff, if◌then◌else◌,
  arith,
}
use xero_visma_v.Client.RateLimit.{Limiter, new, Registry, for_tenant, proactive_wait}

-- With a known number of calls left in the minute: no wait above the threshold of 5, else a wait
-- of 150 ms to 2 s.
proactive_wait_bounds :
    (l : Limiter) (rem : ℕ)
    → l.state.min_remaining ≡ some rem
    → ((proactive_wait l ≡ none) × (5 < rem))
      ⊎ ((ms : ℕ) × (proactive_wait l ≡ some ms) × (rem ≤ 5) × (150 ≤ ms) × (ms ≤ 2000))
unfolding proactive_wait
proactive_wait_bounds l rem e = ground arith

-- The fewer calls are left, the longer the wait.
pub proactive_wait_antitone :
    (l k : Limiter) (r s a b : ℕ)
    → l.state.min_remaining ≡ some r
    → k.state.min_remaining ≡ some s
    → proactive_wait l ≡ some a
    → proactive_wait k ≡ some b
    → r < s
    → b < a
unfolding proactive_wait
proactive_wait_antitone l k r s a b e f p q h = ground arith

-- `map.get(tenant)`
pub find : Text → Registry → Option Limiter
find t [] = none
find t ((k, l) ∷ rest) = if text_eq k t then some l else find t rest

abbrev pub or_new : Text → Option Limiter → Limiter
or_new t none = new t
or_new t (some l) = l

-- The limiter of a tenant is the registered one, or a new one if there is none; it is registered
-- afterwards, and no other tenant's entry changes.
for_tenant_lem :
    (t k : Text) (r : Registry)
    → ((for_tenant t r).0 ≡ or_new t (find t r))
      × (find k (for_tenant t r).1 ≡ (if text_eq t k then some (for_tenant t r).0 else find k r))
unfolding for_tenant find
for_tenant_lem t k [] = ground arith
for_tenant_lem t k ((j, l) ∷ rest) =
    ground (arith, for_tenant_lem t k rest, text_eq_iff j t, text_eq_iff j k, text_eq_iff t k)
