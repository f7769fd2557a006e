-- ===== src/Cli/Health.antt =====
-- core/crates/xero-cli/src/health.rs: the `healthcheck` command, which mints a token for each tenant.
pub mod Laws
use xero_visma_v.Base.{
  ℕ, zero, suc, ◌+◌, Bool, true, false, Option, none, some, List, [], ◌∷◌, ◌++◌, Text, codes, show,
  length, is_nil, Result, ok, err, ◌>>=◌, ◌==◌, if◌then◌else◌,
}
use xero_visma_v.Base.BTree.{Pairs}
use xero_visma_v.Errors.{Error}
use xero_visma_v.Foreign.{Time}
use xero_visma_v.Config.{gcs_config}
use xero_visma_v.Config.App.{app_config}
use xero_visma_v.Auth.{
  TokenData, TokenServer, CustomConnectionClient, Clients, fetch_token_for_tenant, new_clients,
}
use xero_visma_v.Gcs.Sink.Writes.{new_sink}
use xero_visma_v.Cli.Command.{context, tenant_ids}

abbrev pub noted {ℓ} :
    {A : Type ℓ} → Text → Result Error A → List (Text × Error) → List (Text × Error)
noted tenant (ok a) failed = failed
noted tenant (err e) failed = (tenant, e) ∷ failed

-- Whether the bucket fails its check, if it is checked; `auth_error` is why its credentials fail.
unfoldable pub bucket_failures : Pairs → Bool → Option Text → Result Text ℕ
unfolding gcs_config new_sink
bucket_failures vars check_bucket auth_error =
    if check_bucket
    then (context (codes "GCS config error (set GCS_BUCKET)") (gcs_config vars) >>= λ gcs.
        elim (new_sink auth_error gcs.bucket) [ ok bucket ↦ ok 0 | err e ↦ ok 1 ])
    else ok 0

-- The end of `run`: what it says and whether it succeeds.
unfoldable pub verdict : ℕ → Result Text Text
verdict failures =
    if failures == 0
    then ok (codes "All systems healthy")
    else err (codes "healthcheck failed: " ++ show failures ++ codes " check(s) did not pass")

module _ (S : TokenServer) (now : ℕ → Time) where
  -- The loop over the tenants, of which `n` are done; the tenants that got no token, with why.
  unfoldable pub mint_all : ℕ → List Text → Clients S → Option (List (Text × Error) × Clients S)
  unfolding fetch_token_for_tenant
  mint_all n [] clients = some ([], clients)
  mint_all n (t ∷ ts) clients = elim (fetch_token_for_tenant S (now n) t clients) [
    | none ↦ none
    | some (r, after) ↦ elim (mint_all (n + 1) ts after) [
      | none ↦ none
      | some (failed, last) ↦ some (noted t r failed, last)
    ]
  ]

  -- `run` after the configuration is read, for the connections.
  unfoldable pub check_all :
      Pairs → Bool → Option Text → Clients S → Option (Result Text Text × Clients S)
  unfolding mint_all tenant_ids bucket_failures verdict
  check_all vars check_bucket auth_error clients =
      if is_nil (tenant_ids clients)
      then some (
        err (codes "no custom-connection tenants configured (set XERO_ORG_N_* / XERO_CC_*)"),
        clients,
      )
      else elim (mint_all 0 (tenant_ids clients) clients) [
        | none ↦ none
        | some (failed, last) ↦ some (
          bucket_failures vars check_bucket auth_error >>= (λ more. verdict (length failed + more)),
          last,
        )
      ]

  -- `run`, with the connections at its end; nothing stands for a panic.
  unfoldable pub healthcheck : Pairs → Bool → Option Text → Option (Result Text Text × Clients S)
  unfolding check_all
  healthcheck vars check_bucket auth_error =
      elim (context (codes "config error — check your .env file") (app_config vars)) [
        | err e ↦ some (err e, [])
        | ok cfg ↦ check_all vars check_bucket auth_error (new_clients cfg.xero_cc_connections)
      ]
