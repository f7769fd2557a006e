-- ===== src/Auth/Tenants.antt =====
-- Whose token a tenant gets from the connections of core/crates/xero-auth.
use xero_visma_v.Base.{
  ◌≡◌, refl, ◌∙◌, subst, inl, inr, Option, none, some, List, [], ◌∷◌, Text, text_eq, text_eq_iff,
  Result, ok, err, All, leb, ltb, ◌&&◌, Bool-cases,
}
use xero_visma_v.Errors.{Error}
use xero_visma_v.Foreign.{Time}
use xero_visma_v.Config.Connections.{XeroCustomConnectionConfig}
use xero_visma_v.Auth.{
  TokenData, needs_refresh, TokenReply, send_error, parse_error, body, TokenServer,
  CustomConnectionClient, issued, token_of, stored, refresh_token_cache, use_cache, fetch_token,
  Clients, in_place, beside, fetch_token_for_tenant, new_client, insert_client, collect_clients,
  new_clients,
}

-- A cached token is the connection's own.
abbrev pub HasOwnToken : CustomConnectionClient → Option TokenData → Type 0
HasOwnToken c none = Unit
HasOwnToken c (some t) = t.tenant_id ≡ c.tenant_id

-- A connection stands under its tenant, and holds no other tenant's token.
abbrev pub IsOwn : Text × CustomConnectionClient → Type 0
IsOwn (key, c) = (c.tenant_id ≡ key) × HasOwnToken c c.cached_token

-- The token that a call returned for a tenant, if it did, is the tenant's.
abbrev pub IsTokenOf : Text → Result Error TokenData → Type 0
IsTokenOf tenant (err e) = Unit
IsTokenOf tenant (ok t) = t.tenant_id ≡ tenant

module _ (S : TokenServer) where
  -- What a call of one connection leaves: it is still the same connection, with its own token.
  abbrev Kept :
      CustomConnectionClient → Option (Result Error TokenData × CustomConnectionClient) → Type 0
  Kept c none = Unit
  Kept c (some (r, d)) =
      IsTokenOf c.tenant_id r × (d.tenant_id ≡ c.tenant_id) × HasOwnToken d d.cached_token

  abbrev Dated : CustomConnectionClient → Option (Result Error TokenData) → Type 0
  Dated c none = Unit
  Dated c (some r) = IsTokenOf c.tenant_id r

  issued-Dated :
      (c : CustomConnectionClient) (access : Text) (scope : Option Text) (at : Option Time)
      → Dated c (issued S c access scope at)
  unfolding issued
  issued-Dated c access scope none = tt
  issued-Dated c access scope (some at) = refl

  token_of-Dated : (c : CustomConnectionClient) (r : TokenReply) → Dated c (token_of S c r)
  unfolding token_of
  token_of-Dated c (send_error message) = tt
  token_of-Dated c (parse_error message) = tt
  token_of-Dated c (body status access expires_in scope) =
      elim (Bool-cases (leb 200 status && ltb status 300)) [
        | inl success ↦ rw (success, Dated) (issued-Dated c access scope _)
        | inr failure ↦ rw (failure, Dated) tt
      ]

  stored-Kept :
      (c : CustomConnectionClient) (r : Option (Result Error TokenData))
      → HasOwnToken c c.cached_token
      → Dated c r
      → Kept c (stored S c r)
  stored-Kept c none h k = tt
  stored-Kept c (some (err e)) h k = (tt, refl, h)
  stored-Kept c (some (ok t)) h k = (k, refl, k)

  refresh-Kept :
      (c : CustomConnectionClient) → HasOwnToken c c.cached_token → Kept c (refresh_token_cache S c)
  unfolding refresh_token_cache
  refresh-Kept c h =
      stored-Kept c _ h (token_of-Dated c (S.exchange c.client_id c.client_secret c.requests))

  use_cache-Kept :
      (now : Time) (c : CustomConnectionClient) (cached : Option TokenData)
      → HasOwnToken c c.cached_token
      → HasOwnToken c cached
      → Kept c (use_cache S now c cached)
  unfolding use_cache
  use_cache-Kept now c none h k = refresh-Kept c h
  use_cache-Kept now c (some t) h k = elim (Bool-cases (needs_refresh now 60 t)) [
    | inl stale ↦ rw (stale, Kept) (refresh-Kept c h)
    | inr fresh ↦ rw (fresh, Kept) (k, refl, h)
  ]

  fetch_token-Kept :
      (now : Time) (c : CustomConnectionClient)
      → HasOwnToken c c.cached_token
      → Kept c (fetch_token S now c)
  unfolding fetch_token
  fetch_token-Kept now c h = use_cache-Kept now c c.cached_token h h

  -- What a call for a tenant leaves.
  abbrev pub AllKept : Text → Option (Result Error TokenData × Clients S) → Type 0
  AllKept tenant none = Unit
  AllKept tenant (some (r, after)) = IsTokenOf tenant r × All IsOwn after

  in_place-AllKept :
      (key tenant : Text) (c : CustomConnectionClient) (rest : Clients S)
      (o : Option (Result Error TokenData × CustomConnectionClient))
      → c.tenant_id ≡ key
      → key ≡ tenant
      → Kept c o
      → All IsOwn rest
      → AllKept tenant (in_place S key rest o)
  in_place-AllKept key tenant c rest none own same h all = tt
  in_place-AllKept key tenant c rest (some (r, d)) own same (token, still, held) all =
      (subst (λ t. IsTokenOf t r) (own ∙ same) token, ((still ∙ own, held), all))

  beside-AllKept :
      (tenant : Text) (entry : Text × CustomConnectionClient)
      (o : Option (Result Error TokenData × Clients S))
      → IsOwn entry
      → AllKept tenant o
      → AllKept tenant (beside S entry o)
  beside-AllKept tenant entry none own h = tt
  beside-AllKept tenant entry (some (r, rest)) own h = (h.0, (own, h.1))

  -- If every connection stands under its tenant and has cached no other tenant's token, then a call
  -- for a tenant, if it returns, gives a token of that tenant or an error, and leaves all connections
  -- so, whatever the token server answers.
  pub fetch_token_for_tenant-AllKept :
      (now : Time) (tenant : Text) (clients : Clients S)
      → All IsOwn clients
      → AllKept tenant (fetch_token_for_tenant S now tenant clients)
  unfolding fetch_token_for_tenant
  fetch_token_for_tenant-AllKept now tenant [] h = (tt, tt)
  fetch_token_for_tenant-AllKept now tenant ((key, c) ∷ rest) h =
      let later = fetch_token_for_tenant-AllKept now tenant rest h.1 in
      elim (Bool-cases (text_eq key tenant)) [
        | inl same ↦
            rw (same, AllKept)
              (in_place-AllKept key tenant c rest _ h.0.0 ((text_eq_iff key tenant).0 same)
                (fetch_token-Kept now c h.0.1) h.1)
        | inr other ↦ rw (other, AllKept) (beside-AllKept tenant (key, c) _ h.0 later)
      ]

insert_client-IsOwn :
    (c : CustomConnectionClient) (clients : List (Text × CustomConnectionClient))
    → HasOwnToken c c.cached_token
    → All IsOwn clients
    → All IsOwn (insert_client c.tenant_id c clients)
unfolding insert_client
insert_client-IsOwn c [] own h = ((refl, own), tt)
insert_client-IsOwn c ((k, d) ∷ rest) own h =
    let later = insert_client-IsOwn c rest own h.1 in
    elim (Bool-cases (text_eq k c.tenant_id)) [
      | inl same ↦ rw same ((refl, own), h.1)
      | inr other ↦ rw other (h.0, later)
    ]

collect_clients-IsOwn :
    (ks : List XeroCustomConnectionConfig) (clients : List (Text × CustomConnectionClient))
    → All IsOwn clients
    → All IsOwn (collect_clients ks clients)
unfolding collect_clients new_client
collect_clients-IsOwn [] clients h = h
collect_clients-IsOwn (k ∷ ks) clients h =
    collect_clients-IsOwn ks _ (insert_client-IsOwn (new_client k) clients tt h)

-- The connections that the configuration gives stand under their tenants, without a token.
pub new_clients-IsOwn : (ks : List XeroCustomConnectionConfig) → All IsOwn (new_clients ks)
unfolding new_clients
new_clients-IsOwn ks = collect_clients-IsOwn ks [] tt
