-- ===== src/Sync/Job/Held.antt =====
-- `run_entity` of core/crates/xero-sync/src/lib.rs into a sink that keeps texts by key: after a
-- success the sink holds every page of the fetch under the page's own key.
use xero_visma_v.Base.{
  ℕ, ◌≤◌, ◌≡◌, refl, sym, ap, ◌∙◌, false, Option, none, some, List, Text, Result, ok, err, All,
  arith, Option-cases, Result-cases, inl, inr,
}
use xero_visma_v.Errors.{Error}
use xero_visma_v.Foreign.{Chrono, Json}
use xero_visma_v.Foreign.Laws.{HasIso}
use xero_visma_v.Entity.{EntityType, is_report}
use xero_visma_v.Client.Http.{Network, World}
use xero_visma_v.Client.Fetch.{RawPage}
use xero_visma_v.Client.Pages.{PaginationOutcome, u32_max}
use xero_visma_v.Client.Pages.Numbers.{IsNumberedOnce, fetch_raw_pages-NumberedBy}
use xero_visma_v.Client.Pages.Journals.{fetch_raw_pages}
use xero_visma_v.Gcs.Keys.Laws.{object_key_injective, sidecar_key-ne, sidecar_key_injective}
use xero_visma_v.Gcs.Meta.{ObjectMeta}
use xero_visma_v.Gcs.Sink.Writes.{RawSink}
use xero_visma_v.Gcs.Store.{IsStore}
use xero_visma_v.Sync.Mode.{FetchParams, fetch_params}
use xero_visma_v.Sync.Job.Branches.{entity_refused, entity_listing, listing_panics, listing_planned}
use xero_visma_v.Sync.Job.Contents.{put_all, IsHeld, put_all-IsHeld, put_pages-put_all}
use xero_visma_v.Sync.Job.{
  EntityOutcome, Context, finished, shortened, page_key, page_meta, upload_pages, api_for,
  run_entity,
}

finished_ok :
    {A : Type 0} {S : Type 0} (r : Result Text A × S) (w : World) (f : A → EntityOutcome)
    (o : EntityOutcome) (w1 : World) (after : S)
    → finished r w f ≡ some (ok o, w1, after)
    → (a : A) × (r ≡ (ok a, after)) × (w ≡ w1)
finished_ok (ok a, s) w f o w1 after h = (a, cc h, cc h)
finished_ok (err message, s) w f o w1 after h = cc h

module _ (pretty : ObjectMeta → Text) (J : Json) (C : Chrono) (N : Network) (S : RawSink)
    (L : IsStore S pretty) (cap : ℕ) (X : Context C) (tenant : Text) (e : EntityType) where
  abbrev key_of : RawPage → Text
  key_of = page_key J C N S cap X tenant e

  abbrev meta_of : FetchParams → RawPage → ObjectMeta
  meta_of = page_meta J C N S cap X tenant e

  -- What a success leaves: the fetch returned pages, numbered in turn; the contents of the sink
  -- are those before with the pages put into them; and each page is there with its sidecar.
  pub record Keeps (w : World) (s : S.State) (w1 : World) (after : S.State) : Type 0 where
    pub token : Text
    pub params : FetchParams
    pub pages : List RawPage
    pub paging : PaginationOutcome
    pub fetched :
        fetch_raw_pages J C N
          (api_for J C N S cap X tenant)
          token
          cap
          e
          params.modified_after
          params.extras
          w
        ≡ some (ok (pages, paging), w1)
    pub numbered : IsNumberedOnce pages
    pub contents : L.contents after ≡ put_all pretty key_of (meta_of params) pages (L.contents s)
    pub held : All (IsHeld pretty key_of (meta_of params) (L.contents after)) pages

  pages-held :
      (calendar : HasIso C) (params : FetchParams) (pages : List RawPage) (s : S.State)
      → IsNumberedOnce pages
      → All
          (IsHeld pretty key_of
            (meta_of params)
            (put_all pretty key_of (meta_of params) pages (L.contents s)))
          pages
  unfolding page_key
  pages-held calendar params pages s (numbers, few) =
      let run = shortened 6 X.run_id in
      let same : (p q : RawPage) → key_of p ≡ key_of q → p.page ≡ q.page = λ p q h.
        (object_key_injective C calendar X.gcs.prefix tenant X.ts run e e X.run_date X.run_date
          p.page q.page h).2 in
      put_all-IsHeld pretty key_of (meta_of params) (λ p q ne h. ne (same p q h))
        (λ p q ne h. ne (same p q (sidecar_key_injective (key_of p) (key_of q) h)))
        (λ p q h.
          sidecar_key-ne C calendar X.gcs.prefix tenant X.ts run e e X.run_date X.run_date p.page
            q.page h)
        1 pages (L.contents s) (omega arith) few numbers

  listing-Keeps :
      (calendar : HasIso C) (fits : cap ≤ u32_max) (token : Text) (params : FetchParams) (w : World)
      (s : S.State) (r : Option (Result Error (List RawPage × PaginationOutcome) × World))
      → fetch_raw_pages J C N
          (api_for J C N S cap X tenant)
          token
          cap
          e
          params.modified_after
          params.extras
          w
        ≡ r
      → (o : EntityOutcome) (w1 : World) (after : S.State)
      → upload_pages J C N S cap X tenant e params r s ≡ some (ok o, w1, after)
      → Keeps w s w1 after
  unfolding upload_pages
  listing-Keeps calendar fits token params w s none fetched o w1 after h = cc h
  listing-Keeps calendar fits token params w s (some (err x, v)) fetched o w1 after h = cc h
  listing-Keeps calendar fits token params w s (some (ok (pages, paging), v)) fetched o w1 after h =
      let (sum, written, same_world) = finished_ok _ v _ o w1 after h in
      let contents =
        put_pages-put_all pretty key_of (meta_of params) S L pages 0 sum s after written in
      let numbered =
        fetch_raw_pages-NumberedBy J C N (api_for J C N S cap X tenant) token cap e
          params.modified_after params.extras w pages paging v fetched fits in
      record {
        token = token;
        params = params;
        pages = pages;
        paging = paging;
        fetched = fetched ∙ ap (λ u. some (ok (pages, paging), u)) same_world;
        numbered = numbered;
        contents = contents;
        held = rw contents (pages-held calendar params pages s numbered);
      }

  -- Into any sink that keeps texts by key, for a calendar whose dates are printed apart and without
  -- a slash and a cap that is a `u32`: if `run_entity` succeeds on an entity that is no report,
  -- then the sink holds, for every page that was fetched, the body of the page under the page's
  -- key and its metadata under the sidecar's; no page has overwritten another, and what the sink
  -- held under other keys is as before.
  pub run_entity-Keeps :
      HasIso C
      → cap ≤ u32_max
      → is_report e ≡ false
      → (w : World) (s : S.State) (o : EntityOutcome) (w1 : World) (after : S.State)
      → run_entity J C N S cap X tenant e w s ≡ some (ok o, w1, after)
      → Keeps w s w1 after
  run_entity-Keeps calendar fits listing w s o w1 after h =
      elim (Result-cases (X.token_for tenant)) [
        | inr (message, refused) ↦ cc (entity_refused J C N S cap X tenant e w s message refused, h)
        | inl (token, given) ↦
            elim (Option-cases (fetch_params C X.mode e X.now X.run_date X.cfg.window_days)) [
              | inl panics ↦ cc (
                entity_listing J C N S cap X tenant e w s token given listing,
                listing_panics J C N S cap X tenant e w s token panics,
                h,
              )
              | inr (params, planned) ↦
                  listing-Keeps calendar fits token params w s _ refl o w1 after (
                    sym (listing_planned J C N S cap X tenant e w s token params planned)
                    ∙ sym (entity_listing J C N S cap X tenant e w s token given listing)
                    ∙ h)
            ]
      ]
