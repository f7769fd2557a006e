-- ===== src/Cli/Command/Laws.antt =====
-- What `run` of core/crates/xero-cli/src/sync.rs may rely on once it has prepared, and the totals at
-- its end.
use xero_visma_v.Base.{
  ℕ, ◌+◌, ◌%◌, ◌^◌, ◌≡◌, refl, sym, ap, ◌∙◌, false, Option, List, [], ◌∷◌, ◌++◌, append_assoc,
  append-nil, Text, ok, Result-cases, All, is_nil, arith, Bool-cases, inl, inr, is_none,
}
use xero_visma_v.Base.BTree.{Pairs}
use xero_visma_v.Base.Bags.{sum_of, sum_of-append}
use xero_visma_v.Foreign.{Chrono}
use xero_visma_v.Config.Settings.{sync_config}
use xero_visma_v.Config.App.{app_config}
use xero_visma_v.Config.App.Laws.{app_config-Accepted}
use xero_visma_v.Auth.{new_clients}
use xero_visma_v.Sync.Job.{EntityOutcome}
use xero_visma_v.Cli.Resolve.{SyncArgs, resolve_tenants}
use xero_visma_v.Cli.Run.{resolve_gcs_config, RunManifest, merge_into, merge}
use xero_visma_v.Cli.Command.Clients.{HasOwnClient, resolved-HasOwnClient}
use xero_visma_v.Cli.Command.{
  Prepared, tenant_ids, build_sink, prepare, failed_units, report_summary,
}

module _ (C : Chrono) (vars : Pairs) (args : SyncArgs C.Date) where
  -- Where `run` has prepared: there is a tenant, each tenant of the run has a client of its own, and
  -- the configuration of the bucket is the one that was resolved.
  pub record IsReady (p : Prepared) : Type 0 where
    pub some_tenant : is_nil p.tenants ≡ false
    pub clients : All (HasOwnClient vars p.clients) p.tenants
    pub resolved : resolve_gcs_config C vars args ≡ ok p.gcs

  -- If the preparation of a run succeeds, then there is at least one tenant; every tenant of the run
  -- has a client, whose id and secret are those of one block of the environment that names the
  -- tenant; and the bucket and prefix are those that the environment and the flags resolve to.
  pub prepare-IsReady :
      (auth_error : Option Text) (p : Prepared) → prepare C vars args auth_error ≡ ok p → IsReady p
  unfolding prepare
  prepare-IsReady auth_error p h = elim (Result-cases (app_config vars)) [
    | inr (e, failed) ↦ cc (rw failed at h)
    | inl (cfg, read) ↦ elim (Result-cases (sync_config vars)) [
      | inr (e, failed) ↦ cc (rw (read, failed) at h)
      | inl (settings, set) ↦
          let clients = new_clients cfg.xero_cc_connections in
          elim (Result-cases (resolve_tenants args.tenant (tenant_ids clients))) [
            | inr (e, failed) ↦ cc (rw (read, set, failed) at h)
            | inl (tenants, chosen) ↦ elim (Result-cases (resolve_gcs_config C vars args)) [
              | inr (e, failed) ↦ cc (rw (read, set, chosen, failed) at h)
              | inl (gcs, resolved) ↦ elim (Result-cases (build_sink C vars args auth_error gcs)) [
                | inr (e, failed) ↦ cc (rw (read, set, chosen, resolved, failed) at h)
                | inl (destination, built) ↦
                    let same = rw (read, set, chosen, resolved, built) at h in
                    let (filled, own) =
                      resolved-HasOwnClient vars cfg.xero_cc_connections args.tenant tenants
                        (app_config-Accepted vars cfg read).listed.from chosen in
                    let same_clients : clients ≡ p.clients = cc same in
                    let same_tenants : tenants ≡ p.tenants = cc same in
                    let same_gcs : gcs ≡ p.gcs = cc same in
                    record {
                      some_tenant = rw (← same_tenants) filled;
                      clients = rw (← same_clients, ← same_tenants) own;
                      resolved = rw (← same_gcs) resolved;
                    }
              ]
            ]
          ]
    ]
  ]

abbrev pub sum_parts : (EntityOutcome → ℕ) → List RunManifest → ℕ
sum_parts f [] = 0
sum_parts f (m ∷ ms) = sum_of f m.entities + sum_parts f ms

abbrev pub failed_parts : List RunManifest → List (Text × Text × Option Text)
failed_parts [] = []
failed_parts (m ∷ ms) = failed_units m.entities ++ failed_parts ms

failed_units-append :
    (xs ys : List EntityOutcome) → failed_units (xs ++ ys) ≡ failed_units xs ++ failed_units ys
failed_units-append [] ys = refl
failed_units-append (x ∷ xs) ys = elim (Bool-cases (is_none x.error)) [
  | inl fine ↦ rw fine (failed_units-append xs ys)
  | inr failed ↦ rw (failed, failed_units-append xs ys) refl
]

merge_into-sum :
    (f : EntityOutcome → ℕ) (m : RunManifest) (ms : List RunManifest)
    → sum_of f (merge_into m ms).entities ≡ sum_of f m.entities + sum_parts f ms
unfolding merge_into
merge_into-sum f m [] = omega arith
merge_into-sum f m (n ∷ ms) =
    merge_into-sum f (record m { finished_at = n.finished_at; entities = m.entities ++ n.entities })
      ms
    ∙ omega (arith, sum_of-append f m.entities n.entities)

merge_into-failed :
    (m : RunManifest) (ms : List RunManifest)
    → failed_units (merge_into m ms).entities ≡ failed_units m.entities ++ failed_parts ms
unfolding merge_into
merge_into-failed m [] = sym (append-nil (failed_units m.entities))
merge_into-failed m (n ∷ ms) =
    merge_into-failed
      (record m { finished_at = n.finished_at; entities = m.entities ++ n.entities }) ms
    ∙ ap (λ xs. xs ++ failed_parts ms) (failed_units-append m.entities n.entities)
    ∙ append_assoc (failed_units m.entities) (failed_units n.entities) (failed_parts ms)

-- The totals that are printed for a backfill are the sums over its runs, that of the pages as a
-- `u32`, and its errors are theirs, in order.
pub report_summary-merge :
    (parts : List RunManifest) (merged : RunManifest)
    → merge parts ≡ ok merged
    → ((report_summary merged).records ≡ sum_parts (λ o. o.records) parts)
      × ((report_summary merged).pages ≡ sum_parts (λ o. o.pages) parts % 2 ^ 32)
      × ((report_summary merged).errors ≡ failed_parts parts)
unfolding merge report_summary
report_summary-merge [] merged h = cc h
report_summary-merge (m ∷ ms) merged h =
    let same : merge_into m ms ≡ merged = cc h in
    rw (← same) (
      merge_into-sum (λ o. o.records) m ms,
      ap (λ n. n % 2 ^ 32) (merge_into-sum (λ o. o.pages) m ms),
      merge_into-failed m ms,
    )
