-- ===== src/Sync/Job/Branches.antt =====
-- The branches of `run_entity` of core/crates/xero-sync/src/lib.rs as equations.
use xero_visma_v.Base.{ℕ, ◌≡◌, refl, true, false, none, some, Text, ok, err}
use xero_visma_v.Foreign.{Chrono, Json}
use xero_visma_v.Entity.{EntityType, is_report}
use xero_visma_v.Client.Http.{Network, World}
use xero_visma_v.Client.Pages.Journals.{fetch_raw_pages}
use xero_visma_v.Gcs.Sink.Writes.{RawSink}
use xero_visma_v.Sync.Mode.{FetchParams, fetch_params}
use xero_visma_v.Sync.Job.{Context, upload_pages, api_for, run_report, run_listing, run_entity}

module _ (J : Json) (C : Chrono) (N : Network) (S : RawSink) (cap : ℕ) (X : Context C)
    (tenant : Text) (e : EntityType) (w : World) (s : S.State) where
  pub entity_refused :
      (message : Text)
      → X.token_for tenant ≡ err message
      → run_entity J C N S cap X tenant e w s ≡ some (err message, w, s)
  unfolding run_entity
  entity_refused message h = rw (h, run_entity) refl

  pub entity_report :
      (token : Text)
      → X.token_for tenant ≡ ok token
      → is_report e ≡ true
      → run_entity J C N S cap X tenant e w s ≡ run_report J C N S cap X token tenant e w s
  unfolding run_entity
  entity_report token h report = rw (h, run_entity) (rw report refl)

  pub entity_listing :
      (token : Text)
      → X.token_for tenant ≡ ok token
      → is_report e ≡ false
      → run_entity J C N S cap X tenant e w s ≡ run_listing J C N S cap X token tenant e w s
  unfolding run_entity
  entity_listing token h listing = rw (h, run_entity) (rw listing refl)

  pub listing_panics :
      (token : Text)
      → fetch_params C X.mode e X.now X.run_date X.cfg.window_days ≡ none
      → run_listing J C N S cap X token tenant e w s ≡ none
  unfolding run_listing
  listing_panics token h = rw (h, run_listing) refl

  pub listing_planned :
      (token : Text) (params : FetchParams)
      → fetch_params C X.mode e X.now X.run_date X.cfg.window_days ≡ some params
      → run_listing J C N S cap X token tenant e w s
        ≡ upload_pages J C N S cap X tenant e params
            (fetch_raw_pages J C N
              (api_for J C N S cap X tenant)
              token
              cap
              e
              params.modified_after
              params.extras
              w)
            s
  unfolding run_listing
  listing_planned token params h = rw (h, run_listing) refl
