-- ===== src/Cli/Command/Clients.antt =====
-- The clients that `run` of core/crates/xero-cli/src/sync.rs finds for the tenants of a run.
use xero_visma_v.Base.{
  ℕ, ◌≡◌, refl, Bool, true, false, none, some, List, [], ◌∷◌, Text, text_eq, text_eq→eq,
  text_eq_iff, ok, All, any, every, every→All, is_nil, arith, show, ◌⊎◌, Bool-cases, inl, inr,
}
use xero_visma_v.Base.BTree.{Pairs}
use xero_visma_v.Config.Connections.{XeroCustomConnectionConfig}
use xero_visma_v.Config.Connections.Numbers.{InRange}
use xero_visma_v.Config.Connections.Blocks.{IsExplicit, IsNumbered}
use xero_visma_v.Config.App.Selected.{client_at}
use xero_visma_v.Auth.{
  CustomConnectionClient, new_client, insert_client, collect_clients, new_clients,
}
use xero_visma_v.Cli.Resolve.{resolve_tenants}
use xero_visma_v.Cli.Resolve.Scopes.{resolve_tenants_lem}
use xero_visma_v.Cli.Command.{tenant_ids}

-- A connection that the environment gives, by `XERO_CC_*` or by a numbered block.
abbrev pub IsConnection : Pairs → XeroCustomConnectionConfig → Type 0
IsConnection vars k = IsExplicit vars k ⊎ ((n : ℕ) × InRange n × IsNumbered vars (show n) k)

-- The client of a tenant has the id and the secret of a connection of that tenant, and no token
-- yet.
pub record IsClientOf (vars : Pairs) (tenant : Text) (c : CustomConnectionClient) : Type 0 where
  pub connection : XeroCustomConnectionConfig
  pub given : IsConnection vars connection
  pub same_tenant : connection.tenant_id ≡ tenant
  pub tenant_id : c.tenant_id ≡ tenant
  pub client_id : c.client_id ≡ connection.client_id
  pub client_secret : c.client_secret ≡ connection.client_secret
  pub no_token : c.cached_token ≡ none

-- A tenant that has a client, which is its own.
abbrev pub HasOwnClient : Pairs → List (Text × CustomConnectionClient) → Text → Type 0
HasOwnClient vars clients t =
    (c : CustomConnectionClient) × (client_at t clients ≡ some c) × IsClientOf vars t c

abbrev IsEntry : Pairs → Text × CustomConnectionClient → Type 0
IsEntry vars (t, c) = IsClientOf vars t c

new_client-IsClientOf :
    (vars : Pairs) (k : XeroCustomConnectionConfig)
    → IsConnection vars k
    → IsClientOf vars k.tenant_id (new_client k)
unfolding new_client
new_client-IsClientOf vars k given = record {
  connection = k;
  given = given;
  same_tenant = refl;
  tenant_id = refl;
  client_id = refl;
  client_secret = refl;
  no_token = refl;
}

insert_client-All :
    (vars : Pairs) (t : Text) (c : CustomConnectionClient)
    (clients : List (Text × CustomConnectionClient))
    → IsClientOf vars t c
    → All (IsEntry vars) clients
    → All (IsEntry vars) (insert_client t c clients)
unfolding insert_client
insert_client-All vars t c [] h all = (h, tt)
insert_client-All vars t c ((k, d) ∷ rest) h all =
    let later = insert_client-All vars t c rest h all.1 in
    elim (Bool-cases (text_eq k t)) [
      | inl same ↦ rw same (h, all.1)
      | inr other ↦ rw other (all.0, later)
    ]

collect_clients-All :
    (vars : Pairs) (ks : List XeroCustomConnectionConfig)
    (clients : List (Text × CustomConnectionClient))
    → All (IsConnection vars) ks
    → All (IsEntry vars) clients
    → All (IsEntry vars) (collect_clients ks clients)
unfolding collect_clients
collect_clients-All vars [] clients given all = all
collect_clients-All vars (k ∷ ks) clients given all =
    collect_clients-All vars ks (insert_client k.tenant_id (new_client k) clients) given.1 (
      insert_client-All vars k.tenant_id (new_client k) clients
        (new_client-IsClientOf vars k given.0) all)

listed-HasOwnClient :
    (vars : Pairs) (t : Text) (clients : List (Text × CustomConnectionClient))
    → All (IsEntry vars) clients
    → any (text_eq t) (tenant_ids clients) ≡ true
    → HasOwnClient vars clients t
unfolding tenant_ids
listed-HasOwnClient vars t [] own h = cc h
listed-HasOwnClient vars t ((k, c) ∷ rest) own h = elim (Bool-cases (text_eq k t)) [
  | inl same ↦ rw same (c, refl, rw (text_eq→eq k t same) at own.0)
  | inr other ↦ rw other (
      listed-HasOwnClient vars t rest own.1
        (ground (arith, h, other, text_eq_iff k t, text_eq_iff t k)))
]

every_mono {ℓ} :
    {A : Type ℓ} (p q : A → Bool)
    → ((x : A) → p x ≡ true → q x ≡ true)
    → (xs : List A) → every p xs ≡ true
    → every q xs ≡ true
every_mono p q f [] h = refl
every_mono p q f (x ∷ xs) h = ground (arith, h, f x, every_mono p q f xs)

every-any : (xs : List Text) → every (λ t. any (text_eq t) xs) xs ≡ true
every-any [] = refl
every-any (x ∷ xs) =
    let later =
      every_mono (λ t. any (text_eq t) xs) (λ t. any (text_eq t) (x ∷ xs))
        (λ t h. ground (arith, h)) xs (every-any xs) in
    ground (arith, text_eq_iff x x, later)

resolved-listed :
    (requested configured tenants : List Text)
    → resolve_tenants requested configured ≡ ok tenants
    → every (λ t. any (text_eq t) configured) tenants ≡ true
resolved-listed [] configured tenants h =
    let r = (resolve_tenants_lem [] configured tenants).0 h in rw r.0 (every-any configured)
resolved-listed (x ∷ xs) configured tenants h =
    let r = (resolve_tenants_lem (x ∷ xs) configured tenants).0 h in rw r.0 r.2

pub resolved-HasOwnClient :
    (vars : Pairs) (ks : List XeroCustomConnectionConfig) (requested tenants : List Text)
    → All (IsConnection vars) ks
    → resolve_tenants requested (tenant_ids (new_clients ks)) ≡ ok tenants
    → (is_nil tenants ≡ false) × All (HasOwnClient vars (new_clients ks)) tenants
unfolding new_clients
resolved-HasOwnClient vars ks requested tenants given chosen =
    let ids = tenant_ids (new_clients ks) in
    (
      ((resolve_tenants_lem requested ids tenants).0 chosen).1,
      every→All (HasOwnClient vars (new_clients ks)) (λ t. any (text_eq t) ids)
          (λ t.
            listed-HasOwnClient vars t (new_clients ks) (collect_clients-All vars ks [] given tt))
          tenants (resolved-listed requested ids tenants chosen),
    )
