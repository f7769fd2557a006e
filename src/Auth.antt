-- ===== src/Auth.antt =====
-- core/crates/xero-auth: access tokens for the client, one cache for each connection. Instants are
-- nanoseconds here. The mutex of a cache is held for one read or write, and no code panics under it.
pub mod Tenants
pub mod Cache
use xero_visma_v.Base.{
  ℕ, ◌+◌, ◌-◌, ◌*◌, ℤ, pos, negsuc, suc, Bool, true, false, ◌&&◌, Option, none, some, List, [], ◌∷◌,
  ◌++◌, Text, codes, text_eq, is_whitespace, is_nil, Result, ok, err, leb, ltb, if◌then◌else◌,
}
use xero_visma_v.Errors.{Error, auth}
use xero_visma_v.Foreign.{Time}
use xero_visma_v.Config.Connections.{XeroCustomConnectionConfig}

pub record TokenData : Type 0 where
  pub access_token : Text
  pub refresh_token : Text
  pub expires_at : Time
  pub scopes : List Text
  pub tenant_id : Text

abbrev pub second : ℕ
second = 1000000000

-- `Utc::now() >= self.expires_at - Duration::seconds(buffer)`, with the buffer on the other side.
unfoldable pub needs_refresh : Time → ℕ → TokenData → Bool
needs_refresh now buffer token = leb token.expires_at (now + buffer * second)

-- What the server answers to a request for a token.
pub data TokenReply : Type 0 where
  send_error : Text → TokenReply
  parse_error : Text → TokenReply
  body : ℕ → Text → ℤ → Option Text → TokenReply

-- `now + Duration::seconds(n)`, which panics before the first instant.
unfoldable pub plus_seconds : Time → ℤ → Option Time
plus_seconds now (pos n) = some (now + n * second)
plus_seconds now (negsuc n) = if ltb now (suc n * second) then none else some (now - suc n * second)

-- `split_whitespace`, after the characters `word` of a word.
unfoldable pub split_words : Text → Text → List Text
unfolding is_whitespace
split_words word [] = if is_nil word then [] else word ∷ []
split_words word (c ∷ s) =
    let next = split_words [] s in
    let more = split_words (word ++ c ∷ []) s in
    if is_whitespace c then (if is_nil word then next else word ∷ next) else more

abbrev scopes_of : Option Text → List Text
scopes_of none = []
scopes_of (some s) = split_words [] s

-- The token server: its reply to the n-th request for a client, and the clock when it is read.
pub record TokenServer : Type 0 where
  pub exchange : Text → Text → ℕ → TokenReply
  pub clock : ℕ → Time
  -- `Display` of a status: its number and its reason
  pub status_text : ℕ → Text

-- `CustomConnectionClient`, less its HTTP client, with the number of its requests so far.
pub record CustomConnectionClient : Type 0 where
  pub client_id : Text
  pub client_secret : Text
  pub tenant_id : Text
  pub cached_token : Option TokenData
  pub requests : ℕ

module _ (S : TokenServer) where
  unfoldable pub issued :
      CustomConnectionClient → Text → Option Text → Option Time → Option (Result Error TokenData)
  issued c access scope none = none
  issued c access scope (some at) = some (
      ok (record {
        access_token = access;
        refresh_token = [];
        expires_at = at;
        scopes = scopes_of scope;
        tenant_id = c.tenant_id;
      }))

  -- The reply as a token; the token is dated when the body has been read.
  unfoldable pub token_of : CustomConnectionClient → TokenReply → Option (Result Error TokenData)
  unfolding plus_seconds issued
  token_of c (send_error message) = some (err (auth message))
  token_of c (parse_error message) = some (err (auth (codes "cc token parse error: " ++ message)))
  token_of c (body status access expires_in scope) =
      if leb 200 status && ltb status 300
      then issued c access scope (plus_seconds (S.clock c.requests) expires_in)
      else some
          (err (auth (codes "cc token fetch failed (HTTP " ++ S.status_text status ++ codes ")")))

  abbrev pub stored :
      CustomConnectionClient
      → Option (Result Error TokenData)
      → Option (Result Error TokenData × CustomConnectionClient)
  stored c none = none
  stored c (some (err e)) = some (err e, record c { requests = c.requests + 1 })
  stored c (some (ok t)) =
      some (ok t, record c { cached_token = some t; requests = c.requests + 1 })

  -- A fresh token, which is cached.
  unfoldable pub refresh_token_cache :
      CustomConnectionClient → Option (Result Error TokenData × CustomConnectionClient)
  unfolding token_of
  refresh_token_cache c = stored c (token_of c (S.exchange c.client_id c.client_secret c.requests))

  unfoldable pub use_cache :
      Time
      → CustomConnectionClient
      → Option TokenData
      → Option (Result Error TokenData × CustomConnectionClient)
  unfolding needs_refresh refresh_token_cache
  use_cache now c none = refresh_token_cache c
  use_cache now c (some t) =
      if needs_refresh now 60 t then refresh_token_cache c else some (ok t, c)

  unfoldable pub fetch_token :
      Time → CustomConnectionClient → Option (Result Error TokenData × CustomConnectionClient)
  unfolding use_cache
  fetch_token now c = use_cache now c c.cached_token

  abbrev pub Clients : Type 0
  Clients = List (Text × CustomConnectionClient)

  abbrev pub beside :
      Text × CustomConnectionClient
      → Option (Result Error TokenData × Clients)
      → Option (Result Error TokenData × Clients)
  beside entry none = none
  beside entry (some (r, rest)) = some (r, entry ∷ rest)

  abbrev pub in_place :
      Text
      → Clients
      → Option (Result Error TokenData × CustomConnectionClient)
      → Option (Result Error TokenData × Clients)
  in_place key rest none = none
  in_place key rest (some (r, c)) = some (r, (key, c) ∷ rest)

  -- `MultiTenantCustomConnectionClient::fetch_token_for_tenant`
  unfoldable pub fetch_token_for_tenant :
      Time → Text → Clients → Option (Result Error TokenData × Clients)
  unfolding fetch_token
  fetch_token_for_tenant now tenant [] =
      some (err (auth (codes "custom connection tenant not configured: " ++ tenant)), [])
  fetch_token_for_tenant now tenant ((key, c) ∷ rest) =
      let later = beside (key, c) (fetch_token_for_tenant now tenant rest) in
      if text_eq key tenant then in_place key rest (fetch_token now c) else later

  -- `TokenProvider::get_valid_token` of one connection
  unfoldable pub get_valid_token :
      Time
      → Text
      → CustomConnectionClient
      → Option (Result Error TokenData × CustomConnectionClient)
  unfolding fetch_token
  get_valid_token now tenant c =
      if text_eq tenant c.tenant_id
      then fetch_token now c
      else some (err (auth (codes "custom connection tenant mismatch")), c)

-- `CustomConnectionClient::new`
unfoldable pub new_client : XeroCustomConnectionConfig → CustomConnectionClient
new_client k = record {
  client_id = k.client_id;
  client_secret = k.client_secret;
  tenant_id = k.tenant_id;
  cached_token = none;
  requests = 0;
}

-- `HashMap::insert`: a later entry of a key replaces the one before.
unfoldable pub insert_client :
    Text
    → CustomConnectionClient
    → List (Text × CustomConnectionClient)
    → List (Text × CustomConnectionClient)
insert_client key c [] = (key, c) ∷ []
insert_client key c ((k, d) ∷ rest) =
    let later = (k, d) ∷ insert_client key c rest in
    if text_eq k key then (key, c) ∷ rest else later

unfoldable pub collect_clients :
    List XeroCustomConnectionConfig
    → List (Text × CustomConnectionClient)
    → List (Text × CustomConnectionClient)
unfolding insert_client new_client
collect_clients [] clients = clients
collect_clients (k ∷ ks) clients =
    collect_clients ks (insert_client k.tenant_id (new_client k) clients)

-- `MultiTenantCustomConnectionClient::new`
unfoldable pub new_clients : List XeroCustomConnectionConfig → List (Text × CustomConnectionClient)
unfolding collect_clients
new_clients ks = collect_clients ks []
