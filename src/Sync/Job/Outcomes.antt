-- ===== src/Sync/Job/Outcomes.antt =====
-- `run_unit` of core/crates/xero-sync/src/lib.rs: every unit has an outcome under its own names.
use xero_visma_v.Base.{
  ℕ, ◌≡◌, refl, Option, none, some, List, Text, codes, Result, ok, err, Option-cases, Bool-cases,
  Result-cases, sym, subst, inl, inr,
}
use xero_visma_v.Foreign.{Chrono, Json}
use xero_visma_v.Errors.{Error}
use xero_visma_v.Entity.{EntityType, as_str, is_report}
use xero_visma_v.Client.Http.{Network, World}
use xero_visma_v.Client.Fetch.{RawPage}
use xero_visma_v.Client.Pages.{PaginationOutcome}
use xero_visma_v.Sync.Mode.{FetchParams, fetch_params}
use xero_visma_v.Sync.Report.{ReportSpec, report_params}
use xero_visma_v.Gcs.Sink.Writes.{RawSink}
use xero_visma_v.Sync.Job.Branches.{
  entity_refused, entity_report, entity_listing, listing_panics, listing_planned,
}
use xero_visma_v.Sync.Job.{
  EntityOutcome, Context, Done, finished, upload_pages, upload_report, as_of_date, run_report,
  run_listing, run_entity, error_outcome, isolated, run_unit,
}

-- What an outcome says of what `run_entity` returned: the outcome itself, which has no error, or
-- the error, with nothing counted.
abbrev pub Reports : Result Text EntityOutcome → EntityOutcome → Type 0
Reports (ok returned) o = (o ≡ returned) × (o.error ≡ none)
Reports (err message) o =
    (o.error ≡ some message) × (o.pages ≡ 0) × (o.records ≡ 0) × (o.termination ≡ codes "error")

-- The outcome is of the unit, and reports what `run_entity` returned.
pub record IsOutcomeOf (tenant : Text) (e : EntityType) (r : Result Text EntityOutcome)
    (o : EntityOutcome) : Type 0 where
  pub same_tenant : o.tenant ≡ tenant
  pub same_endpoint : o.endpoint ≡ as_str e
  pub reports : Reports r o

-- A unit returns where its `run_entity` does, with an outcome for it, and changes nothing more.
abbrev pub IsIsolated :
    {S : Type 0}
    → Text
    → EntityType
    → Done S EntityOutcome
    → Option (EntityOutcome × World × S)
    → Type 0
IsIsolated tenant e none none = Unit
IsIsolated tenant e none (some (o, v, t)) = ⊥
IsIsolated tenant e (some (r, w, s)) none = ⊥
IsIsolated tenant e (some (r, w, s)) (some (o, v, t)) = IsOutcomeOf tenant e r o × (v ≡ w) × (t ≡ s)

-- A success has no error.
abbrev IsFine : {S : Type 0} → Text → EntityType → Done S EntityOutcome → Type 0
IsFine tenant e none = Unit
IsFine tenant e (some (err message, w, s)) = Unit
IsFine tenant e (some (ok o, w, s)) =
    (o.tenant ≡ tenant) × (o.endpoint ≡ as_str e) × (o.error ≡ none)

module _ (J : Json) (C : Chrono) (N : Network) (S : RawSink) (cap : ℕ) (X : Context C) where
  finished-IsFine :
      {A : Type 0} (tenant : Text) (e : EntityType) (r : Result Text A × S.State) (w : World)
      (f : A → EntityOutcome)
      → ((a : A) → ((f a).tenant ≡ tenant) × ((f a).endpoint ≡ as_str e) × ((f a).error ≡ none))
      → IsFine tenant e (finished r w f)
  finished-IsFine tenant e (ok a, s) w f h = h a
  finished-IsFine tenant e (err message, s) w f h = tt

  upload_pages-IsFine :
      (tenant : Text) (e : EntityType) (params : FetchParams)
      (r : Option (Result Error (List RawPage × PaginationOutcome) × World)) (s : S.State)
      → IsFine tenant e (upload_pages J C N S cap X tenant e params r s)
  unfolding upload_pages
  upload_pages-IsFine tenant e params none s = tt
  upload_pages-IsFine tenant e params (some (err error, w)) s = tt
  upload_pages-IsFine tenant e params (some (ok (pages, outcome), w)) s =
      finished-IsFine tenant e _ w _ (λ a. (refl, refl, refl))

  upload_report-IsFine :
      (tenant : Text) (e : EntityType) (spec : ReportSpec)
      (r : Option (Result Error RawPage × World)) (s : S.State)
      → IsFine tenant e (upload_report J C N S cap X tenant e spec r s)
  unfolding upload_report
  upload_report-IsFine tenant e spec none s = tt
  upload_report-IsFine tenant e spec (some (err error, w)) s = tt
  upload_report-IsFine tenant e spec (some (ok page, w)) s =
      finished-IsFine tenant e _ w _ (λ a. (refl, refl, refl))

  run_listing-IsFine :
      (token tenant : Text) (e : EntityType) (w : World) (s : S.State)
      → IsFine tenant e (run_listing J C N S cap X token tenant e w s)
  run_listing-IsFine token tenant e w s =
      elim (Option-cases (fetch_params C X.mode e X.now X.run_date X.cfg.window_days)) [
        | inl panics ↦
            subst (IsFine tenant e) (sym (listing_panics J C N S cap X tenant e w s token panics))
              tt
        | inr (params, planned) ↦
            subst (IsFine tenant e)
              (sym (listing_planned J C N S cap X tenant e w s token params planned))
              (upload_pages-IsFine tenant e params _ s)
      ]

  run_entity-IsFine :
      (tenant : Text) (e : EntityType) (w : World) (s : S.State)
      → IsFine tenant e (run_entity J C N S cap X tenant e w s)
  unfolding run_report
  run_entity-IsFine tenant e w s = elim (Result-cases (X.token_for tenant)) [
    | inr (message, refused) ↦
        subst (IsFine tenant e) (sym (entity_refused J C N S cap X tenant e w s message refused)) tt
    | inl (token, given) ↦ elim (Bool-cases (is_report e)) [
      | inl report ↦
          subst (IsFine tenant e)
            (sym (entity_report J C N S cap X tenant e w s token given report))
            (upload_report-IsFine tenant e (report_params C e (as_of_date J C N S cap X X.mode)) _
              s)
      | inr listing ↦
          subst (IsFine tenant e)
            (sym (entity_listing J C N S cap X tenant e w s token given listing))
            (run_listing-IsFine token tenant e w s)
    ]
  ]

  isolated_lem :
      (tenant : Text) (e : EntityType) (r : Done S.State EntityOutcome)
      → IsFine tenant e r
      → IsIsolated tenant e r (isolated J C N S cap X tenant e r)
  unfolding isolated error_outcome
  isolated_lem tenant e none fine = tt
  isolated_lem tenant e (some (ok o, w, s)) fine = (
    record { same_tenant = fine.0; same_endpoint = fine.1; reports = (refl, fine.2) },
    refl,
    refl,
  )
  isolated_lem tenant e (some (err message, w, s)) fine = (
    record { same_tenant = refl; same_endpoint = refl; reports = (refl, refl, refl, refl) },
    refl,
    refl,
  )

  -- `run_unit` returns just where `run_entity` does, and leaves what that left. The outcome has the
  -- tenant and the endpoint of the unit. If `run_entity` succeeded, it is what that returned, and
  -- has no error; if it failed, the outcome has its error, counts no pages and no records, and is
  -- terminated as `error`.
  pub run_unit-IsIsolated :
      (tenant : Text) (e : EntityType) (w : World) (s : S.State)
      → IsIsolated tenant e
          (run_entity J C N S cap X tenant e w s)
          (run_unit J C N S cap X tenant e w s)
  unfolding run_unit
  run_unit-IsIsolated tenant e w s =
      isolated_lem tenant e (run_entity J C N S cap X tenant e w s) (run_entity-IsFine tenant e w s)

  isolation_names :
      (tenant : Text) (e : EntityType) (r : Done S.State EntityOutcome) (o : EntityOutcome)
      (w : World) (s : S.State)
      → IsIsolated tenant e r (some (o, w, s))
      → (o.tenant ≡ tenant) × (o.endpoint ≡ as_str e)
  isolation_names tenant e none o w s h = absurd h
  isolation_names tenant e (some (r, v, t)) o w s h = (h.0.same_tenant, h.0.same_endpoint)

  -- Where `run_unit` returns, its outcome has the tenant and the endpoint of the unit.
  pub run_unit_named :
      (tenant : Text) (e : EntityType) (w : World) (s : S.State) (o : EntityOutcome) (w1 : World)
      (s1 : S.State)
      → run_unit J C N S cap X tenant e w s ≡ some (o, w1, s1)
      → (o.tenant ≡ tenant) × (o.endpoint ≡ as_str e)
  run_unit_named tenant e w s o w1 s1 h =
      isolation_names tenant e (run_entity J C N S cap X tenant e w s) o w1 s1 (
        subst (IsIsolated tenant e (run_entity J C N S cap X tenant e w s)) h
          (run_unit-IsIsolated tenant e w s))
