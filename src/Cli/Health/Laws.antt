-- ===== src/Cli/Health/Laws.antt =====
-- What a successful `healthcheck` of core/crates/xero-cli/src/health.rs shows.
use xero_visma_v.Base.{
  ℕ, ◌≡◌, Bool, true, false, not, Option, none, some, List, [], ◌∷◌, Text, text_eq, length, is_nil,
  Result, ok, err, All, every, is_none, if◌then◌else◌,
}
use xero_visma_v.Base.BTree.{Pairs}
use xero_visma_v.Errors.{Error}
use xero_visma_v.Foreign.{Time}
use xero_visma_v.Config.App.{AppConfig, app_config}
use xero_visma_v.Auth.{TokenData, TokenServer, CustomConnectionClient, Clients, new_clients}
use xero_visma_v.Auth.Tenants.{IsOwn}
use xero_visma_v.Cli.Command.{tenant_ids}
use xero_visma_v.Cli.Health.{bucket_failures}

-- Whether the connection of the tenant has a token in its cache.
abbrev pub holds_token : Text → List (Text × CustomConnectionClient) → Bool
holds_token t [] = false
holds_token t ((k, c) ∷ rest) =
    if text_eq k t then not (is_none c.cached_token) else holds_token t rest

abbrev is_ok {ℓ} : {A : Type ℓ} → Result Error A → Bool
is_ok (ok a) = true
is_ok (err e) = false

-- Where every check has passed: there is a tenant, each tenant's connection has a token, no
-- connection has another tenant's, and the bucket is ready if it was checked.
pub record IsHealthy (vars : Pairs) (check_bucket : Bool) (auth_error : Option Text)
    (last : List (Text × CustomConnectionClient)) : Type 0 where
  pub cfg : AppConfig
  pub read : app_config vars ≡ ok cfg
  pub some_tenant : is_nil (tenant_ids (new_clients cfg.xero_cc_connections)) ≡ false
  pub tokens :
      every (λ t. holds_token t last) (tenant_ids (new_clients cfg.xero_cc_connections)) ≡ true
  pub own : All IsOwn last
  pub bucket : bucket_failures vars check_bucket auth_error ≡ ok 0

module _ (S : TokenServer) where
  -- A call keeps the tokens that there are, and leaves one where it returns one.
  abbrev Holding : (Text → Bool) → Text → Option (Result Error TokenData × Clients S) → Type 0
  Holding before t none = Unit
  Holding before t (some (r, after)) =
      ((u : Text) → before u ≡ true → holds_token u after ≡ true)
      × (is_ok r ≡ true → holds_token t after ≡ true)

  module _ (now : ℕ → Time) where
    abbrev Minted : (Text → Bool) → List Text → Option (List (Text × Error) × Clients S) → Type 0
    Minted before ts none = Unit
    Minted before ts (some (failed, last)) =
        ((u : Text) → before u ≡ true → holds_token u last ≡ true)
        × (length failed ≡ 0 → every (λ t. holds_token t last) ts ≡ true)
        × All IsOwn last
