-- ===== src/Auth/Cache.antt =====
-- When the token cache of a connection of core/crates/xero-auth is used.
use xero_visma_v.Base.{
  ◌+◌, ◌*◌, ◌<◌, ◌≡◌, refl, ap, ◌∙◌, ◌⊎◌, inl, inr, Bool, true, false, Option, none, some, Result,
  ok, err, leb, arith, Bool-cases,
}
use xero_visma_v.Errors.{Error}
use xero_visma_v.Foreign.{Time}
use xero_visma_v.Auth.{
  TokenData, second, needs_refresh, TokenServer, CustomConnectionClient, stored,
  refresh_token_cache, use_cache, fetch_token,
}

module _ (S : TokenServer) where
  -- No token is cached that has more than a minute left.
  abbrev pub lacks_fresh : Time → Option TokenData → Bool
  lacks_fresh now none = true
  lacks_fresh now (some t) = leb t.expires_at (now + 60 * second)

  -- How a call came by its result: with the cached token, which has more than a minute left, and no
  -- request; or with one request, where there was no such token.
  abbrev pub IsServed :
      Time
      → CustomConnectionClient
      → Option (Result Error TokenData × CustomConnectionClient)
      → Type 0
  IsServed now c none = Unit
  IsServed now c (some (err e, d)) =
      (d.cached_token ≡ c.cached_token)
      × (d.requests ≡ c.requests + 1)
      × (lacks_fresh now c.cached_token ≡ true)
  IsServed now c (some (ok t, d)) =
      (d.cached_token ≡ some t)
      × (((now + 60 * second < t.expires_at) × (d.requests ≡ c.requests))
          ⊎ ((d.requests ≡ c.requests + 1) × (lacks_fresh now c.cached_token ≡ true)))

  stored-IsServed :
      (now : Time) (c : CustomConnectionClient) (r : Option (Result Error TokenData))
      → lacks_fresh now c.cached_token ≡ true
      → IsServed now c (stored S c r)
  stored-IsServed now c none h = tt
  stored-IsServed now c (some (err e)) h = (refl, refl, h)
  stored-IsServed now c (some (ok t)) h = (refl, inr (refl, h))

  minute_left :
      (now : Time) (t : TokenData)
      → needs_refresh now 60 t ≡ false
      → now + 60 * second < t.expires_at
  unfolding needs_refresh
  minute_left now t fresh = ground (arith, fresh)

  use_cache-IsServed :
      (now : Time) (c : CustomConnectionClient) (cached : Option TokenData)
      → c.cached_token ≡ cached
      → IsServed now c (use_cache S now c cached)
  unfolding use_cache refresh_token_cache needs_refresh
  use_cache-IsServed now c none h = stored-IsServed now c _ (ap (lacks_fresh now) h)
  use_cache-IsServed now c (some t) h = elim (Bool-cases (needs_refresh now 60 t)) [
    | inl stale ↦ rw (stale, IsServed) (stored-IsServed now c _ (ap (lacks_fresh now) h ∙ stale))
    | inr fresh ↦ rw (fresh, IsServed) (h, inl (minute_left now t fresh, refl))
  ]

  -- If `fetch_token` returns a token, it is cached afterwards, and either no request was sent and it
  -- has more than 60 seconds left, or one request was sent because no such token was cached. If it
  -- returns an error, one request was sent for that reason too, and the cache is as before.
  pub fetch_token-IsServed :
      (now : Time) (c : CustomConnectionClient) → IsServed now c (fetch_token S now c)
  unfolding fetch_token
  fetch_token-IsServed now c = use_cache-IsServed now c c.cached_token refl
