-- ===== src/Cli/Resolve/Scopes.antt =====
-- What `resolve_tenants` and `resolve_entities` of core/crates/xero-cli/src/resolve.rs let through.
use xero_visma_v.Base.{
  ◌≡◌, refl, subst, Bool, true, false, not, none, List, [], ◌∷◌, Text, text_eq, any, every, is_nil,
  find, ok, if◌then◌else◌, arith, inl, inr, ◌↔◌, Option-cases,
}
use xero_visma_v.Foreign.{Chrono}
use xero_visma_v.Entity.{
  EntityType, is_report, is_master, all, reports_default, master_data, open_status,
}
use xero_visma_v.Config.{SyncConfig}
use xero_visma_v.Sync.Mode.{
  SyncMode, incremental, open_sweep, rolling_full, master, backfill, reports,
}
use xero_visma_v.Cli.Resolve.{
  EntityScope, SyncArgs, unknown_tenant, resolve_tenants, transactional_entities, resolve_entities,
  mode_scope, business_window, resolve_window, resolve_mode,
}

-- No item is found just when every item fails the test.
find-every {ℓ} :
    {A : Type ℓ} (p q : A → Bool)
    → ((x : A) → q x ≡ not (p x))
    → (xs : List A) → (find p xs ≡ none) ↔ (every q xs ≡ true)
find-every p q opposite [] = (λ h. refl, λ h. refl)
find-every p q opposite (x ∷ xs) = ground (arith, opposite x, find-every p q opposite xs)

-- The tenants of a run are accepted just when they are the requested ones, or all configured ones
-- where none is requested, there is at least one, and every requested one is configured.
pub resolve_tenants_lem :
    (requested configured tenants : List Text)
    → (resolve_tenants requested configured ≡ ok tenants) ↔ (
        (tenants ≡ (if is_nil requested then configured else requested))
        × (is_nil tenants ≡ false)
        × (every (λ t. any (text_eq t) configured) requested ≡ true))
unfolding resolve_tenants unknown_tenant
resolve_tenants_lem [] [] tenants = ground arith
resolve_tenants_lem [] (c ∷ cs) tenants = ground arith
resolve_tenants_lem (r ∷ rs) configured tenants =
    let known =
      find-every (λ t. not (any (text_eq t) configured)) (λ t. any (text_eq t) configured)
        (λ t. ground arith) (r ∷ rs) in
    elim (Option-cases (unknown_tenant configured (r ∷ rs))) [
      | inl clear ↦ ground (arith, known, clear)
      | inr (t, found) ↦ ground (arith, known, found)
    ]

-- Whether the entities of a run are all reports, or none is.
abbrev AllReportsJustWhen : Bool → List EntityType → Type 0
AllReportsJustWhen b es = every (λ e. if b then is_report e else not (is_report e)) es ≡ true

listed :
    (allowed : Bool) (r : EntityType) (rs defaults es : List EntityType)
    → resolve_entities (r ∷ rs) (record { default_entities = defaults; allows_reports = allowed })
      ≡ ok es
    → AllReportsJustWhen allowed es
unfolding resolve_entities
listed true r rs defaults es found =
    let clear = find-every (λ x. not (is_report x)) is_report (λ x. ground arith) (r ∷ rs) in
    elim (Option-cases (find (λ x. not (is_report x)) (r ∷ rs))) [
      | inl h ↦ subst (AllReportsJustWhen true) {x = r ∷ rs} (ground (arith, h, found)) (clear.0 h)
      | inr (other, h) ↦ ground (arith, h, found)
    ]
listed false r rs defaults es found =
    let clear = find-every is_report (λ x. not (is_report x)) (λ x. refl) (r ∷ rs) in
    elim (Option-cases (find is_report (r ∷ rs))) [
      | inl h ↦ subst (AllReportsJustWhen false) {x = r ∷ rs} (ground (arith, h, found)) (clear.0 h)
      | inr (report, h) ↦ ground (arith, h, found)
    ]

resolve_entities_lem :
    (requested : List EntityType) (scope : EntityScope)
    → AllReportsJustWhen scope.allows_reports scope.default_entities
    → (es : List EntityType) → resolve_entities requested scope ≡ ok es
    → AllReportsJustWhen scope.allows_reports es
unfolding resolve_entities
resolve_entities_lem [] scope h es found =
    subst (λ xs. AllReportsJustWhen scope.allows_reports xs) (cc found) h
resolve_entities_lem (r ∷ rs) scope h es found =
    listed scope.allows_reports r rs scope.default_entities es found

module _ (C : Chrono) where
  mode_scope_lem :
      (mode : SyncMode C.Date)
      → AllReportsJustWhen (mode_scope C mode).allows_reports (mode_scope C mode).default_entities
  unfolding mode_scope is_report is_master all reports_default master_data open_status
      transactional_entities
  mode_scope_lem incremental = refl
  mode_scope_lem (open_sweep w) = refl
  mode_scope_lem (rolling_full days) = refl
  mode_scope_lem master = refl
  mode_scope_lem (backfill from to) = refl
  mode_scope_lem (reports as_of) = refl

  resolve_mode-allows_reports :
      (args : SyncArgs C.Date) (run_date anchor : C.Date) (cfg : SyncConfig)
      (mode : SyncMode C.Date)
      → resolve_mode C args run_date cfg ≡ ok (mode, anchor)
      → (mode_scope C mode).allows_reports ≡ args.reports
  unfolding resolve_mode resolve_window business_window mode_scope
  resolve_mode-allows_reports args run_date anchor cfg mode h = ground (arith, h)

  -- Where the flags resolve to a mode, and the entities resolve under that mode, all entities of
  -- the run are reports if `--reports` is given, and none is a report otherwise.
  resolve_mode-resolve_entities :
      (args : SyncArgs C.Date) (run_date anchor : C.Date) (cfg : SyncConfig)
      (mode : SyncMode C.Date) (es : List EntityType)
      → resolve_mode C args run_date cfg ≡ ok (mode, anchor)
      → resolve_entities args.entity (mode_scope C mode) ≡ ok es
      → AllReportsJustWhen args.reports es
  resolve_mode-resolve_entities args run_date anchor cfg mode es h found =
      subst (λ b. AllReportsJustWhen b es)
        (resolve_mode-allows_reports args run_date anchor cfg mode h)
        (resolve_entities_lem args.entity (mode_scope C mode) (mode_scope_lem mode) es found)
