-- ===== src/Sync/Job/Uploads.antt =====
-- `run_entity` of core/crates/xero-sync/src/lib.rs with the bucket: what a success has written.
use xero_visma_v.Base.{
  ℕ, ◌+◌, ◌≡◌, refl, sym, ap, ◌∙◌, false, Option, none, some, List, [], ◌∷◌, ◌++◌, append_assoc,
  Text, Result, ok, err, arith, Option-cases, Result-cases, inl, inr,
}
use xero_visma_v.Errors.{Error}
use xero_visma_v.Foreign.{Chrono, Json}
use xero_visma_v.Entity.{EntityType, is_report}
use xero_visma_v.Client.Http.{Network, World}
use xero_visma_v.Client.Fetch.{RawPage}
use xero_visma_v.Client.Pages.{PaginationOutcome, reason_str}
use xero_visma_v.Client.Pages.Journals.{fetch_raw_pages}
use xero_visma_v.Gcs.Keys.{sidecar_key}
use xero_visma_v.Gcs.Meta.{ObjectMeta}
use xero_visma_v.Gcs.Sink.Writes.{Object, Bucket, put_outcome, put_raw-put_outcome, gcs_sink}
use xero_visma_v.Sync.Mode.{FetchParams, fetch_params}
use xero_visma_v.Sync.Job.Branches.{entity_refused, entity_listing, listing_panics, listing_planned}
use xero_visma_v.Sync.Job.{
  EntityOutcome, Context, then_put, finished, put_pages, page_key, page_meta, upload_pages, api_for,
  run_entity,
}

abbrev pub total_records : List RawPage → ℕ
total_records [] = 0
total_records (p ∷ ps) = p.record_count + total_records ps

-- What a bucket holds of the pages, the latest first: each body with its metadata, then its sidecar.
abbrev pub stored :
    (ObjectMeta → Text) → (RawPage → Text) → (RawPage → ObjectMeta) → List RawPage → List Object
stored pretty key_of meta_of [] = []
stored pretty key_of meta_of (p ∷ ps) =
    stored pretty key_of meta_of ps
    ++ record { name = sidecar_key (key_of p); body = pretty (meta_of p); metadata = none }
      ∷ record { name = key_of p; body = p.body; metadata = some (meta_of p) }
      ∷ []

module _ (refuses : ℕ → Option Text) (pretty : ObjectMeta → Text) where
  -- One page, by the answers to its two uploads.
  page_stored :
      (key_of : RawPage → Text) (meta_of : RawPage → ObjectMeta) (p : RawPage) (ps : List RawPage)
      (total sum : ℕ) (b after : Bucket)
      → ((b1 : Bucket)
          → put_pages (gcs_sink refuses pretty) key_of meta_of ps (total + p.record_count) b1
            ≡ (ok sum, after)
          → (sum ≡ total + p.record_count + total_records ps)
            × (after.objects ≡ stored pretty key_of meta_of ps ++ b1.objects))
      → (first second : Option Text)
      → then_put
          (put_outcome refuses pretty first second (key_of p) p.body (meta_of p) b)
          (put_pages (gcs_sink refuses pretty) key_of meta_of ps (total + p.record_count))
        ≡ (ok sum, after)
      → (sum ≡ total + total_records (p ∷ ps))
        × (after.objects ≡ stored pretty key_of meta_of (p ∷ ps) ++ b.objects)
  page_stored key_of meta_of p ps total sum b after later (some message) second h = cc h
  page_stored key_of meta_of p ps total sum b after later none (some message) h = cc h
  page_stored key_of meta_of p ps total sum b after later none none h =
      let (counted, held) = later _ h in
      (
        omega (arith, counted),
        held
            ∙ sym (
                append_assoc (stored pretty key_of meta_of ps)
                  (record {
                    name = sidecar_key (key_of p);
                    body = pretty (meta_of p);
                    metadata = none;
                  }
                    ∷ record { name = key_of p; body = p.body; metadata = some (meta_of p) }
                    ∷ [])
                  b.objects),
      )

  put_pages-stored :
      (key_of : RawPage → Text) (meta_of : RawPage → ObjectMeta) (pages : List RawPage)
      (total sum : ℕ) (b after : Bucket)
      → put_pages (gcs_sink refuses pretty) key_of meta_of pages total b ≡ (ok sum, after)
      → (sum ≡ total + total_records pages)
        × (after.objects ≡ stored pretty key_of meta_of pages ++ b.objects)
  unfolding put_pages
  put_pages-stored key_of meta_of [] total sum b after h =
      let same_sum : total ≡ sum = cc h in
      let same : b ≡ after = cc h in (omega (arith, same_sum), ap (λ x. x.objects) (sym same))
  put_pages-stored key_of meta_of (p ∷ ps) total sum b after h =
      page_stored key_of meta_of p ps total sum b after
        (λ b1 h1. put_pages-stored key_of meta_of ps (total + p.record_count) sum b1 after h1)
        (refuses b.uploads) (refuses (b.uploads + 1))
        (ap
            (λ r.
              then_put r
                (put_pages (gcs_sink refuses pretty) key_of meta_of ps (total + p.record_count)))
            (sym (put_raw-put_outcome refuses pretty (key_of p) p.body (meta_of p) b))
          ∙ h)

  module _ (J : Json) (C : Chrono) (N : Network) (cap : ℕ) (X : Context C) (tenant : Text)
      (e : EntityType) where
    -- What a success says: the pages were fetched, their records are counted, and the bucket holds
    -- every page and its sidecar before what it held.
    pub record IsUploaded (w : World) (b : Bucket) (o : EntityOutcome) (w1 : World) (after : Bucket)
        : Type 0 where
      pub token : Text
      pub params : FetchParams
      pub pages : List RawPage
      pub paging : PaginationOutcome
      pub authorised : X.token_for tenant ≡ ok token
      pub planned : fetch_params C X.mode e X.now X.run_date X.cfg.window_days ≡ some params
      pub fetched :
          fetch_raw_pages J C N
            (api_for J C N (gcs_sink refuses pretty) cap X tenant)
            token
            cap
            e
            params.modified_after
            params.extras
            w
          ≡ some (ok (pages, paging), w1)
      pub counted : o.records ≡ total_records pages
      pub pages_counted : o.pages ≡ paging.pages_fetched
      pub ended : o.termination ≡ reason_str paging.termination
      pub held :
          after.objects
          ≡ stored pretty
              (page_key J C N (gcs_sink refuses pretty) cap X tenant e)
              (page_meta J C N (gcs_sink refuses pretty) cap X tenant e params)
              pages
            ++ b.objects

    finished_stored :
        {A : Type 0} (r : Result Text A × Bucket) (w : World) (f : A → EntityOutcome)
        (o : EntityOutcome) (w1 : World) (after : Bucket)
        → finished r w f ≡ some (ok o, w1, after)
        → (a : A) × (r ≡ (ok a, after)) × (f a ≡ o) × (w ≡ w1)
    finished_stored (ok a, s) w f o w1 after h = (a, cc h, cc h, cc h)
    finished_stored (err message, s) w f o w1 after h = cc h

    listing-IsUploaded :
        (token : Text) (params : FetchParams) (w : World) (b : Bucket)
        (r : Option (Result Error (List RawPage × PaginationOutcome) × World))
        → X.token_for tenant ≡ ok token
        → fetch_params C X.mode e X.now X.run_date X.cfg.window_days ≡ some params
        → fetch_raw_pages J C N
            (api_for J C N (gcs_sink refuses pretty) cap X tenant)
            token
            cap
            e
            params.modified_after
            params.extras
            w
          ≡ r
        → (o : EntityOutcome) (w1 : World) (after : Bucket)
        → upload_pages J C N (gcs_sink refuses pretty) cap X tenant e params r b
          ≡ some (ok o, w1, after)
        → IsUploaded w b o w1 after
    unfolding upload_pages
    listing-IsUploaded token params w b none authorised planned fetched o w1 after h = cc h
    listing-IsUploaded token params w b (some (err x, v)) authorised planned fetched o w1 after h =
        cc h
    listing-IsUploaded token params w b (some (ok (pages, paging), v)) authorised planned fetched o
          w1 after h =
        let (sum, written, outcome, same_world) = finished_stored _ v _ o w1 after h in
        let (counted, held) =
          put_pages-stored (page_key J C N (gcs_sink refuses pretty) cap X tenant e)
            (page_meta J C N (gcs_sink refuses pretty) cap X tenant e params) pages 0 sum b after
            written in
        record {
          token = token;
          params = params;
          pages = pages;
          paging = paging;
          authorised = authorised;
          planned = planned;
          fetched = fetched ∙ ap (λ u. some (ok (pages, paging), u)) same_world;
          counted = ap (λ x. x.records) (sym outcome) ∙ omega (arith, counted);
          pages_counted = ap (λ x. x.pages) (sym outcome);
          ended = ap (λ x. x.termination) (sym outcome);
          held = held;
        }

    -- If `run_entity` succeeds on an entity that is no report, with a bucket whose uploads may be
    -- refused at any moment, then a token was given, the pages were fetched under the parameters
    -- of the mode, the outcome counts their records and says how the paging ended, and the bucket
    -- holds every page with its metadata, followed by its sidecar, in the order of the pages, and
    -- before them only what it held.
    pub run_entity-IsUploaded :
        is_report e ≡ false
        → (w : World) (b : Bucket) (o : EntityOutcome) (w1 : World) (after : Bucket)
        → run_entity J C N (gcs_sink refuses pretty) cap X tenant e w b ≡ some (ok o, w1, after)
        → IsUploaded w b o w1 after
    run_entity-IsUploaded listing w b o w1 after h =
        let S = gcs_sink refuses pretty in
        elim (Result-cases (X.token_for tenant)) [
          | inr (message, refused) ↦
              cc (entity_refused J C N S cap X tenant e w b message refused, h)
          | inl (token, given) ↦
              elim (Option-cases (fetch_params C X.mode e X.now X.run_date X.cfg.window_days)) [
                | inl panics ↦ cc (
                  entity_listing J C N S cap X tenant e w b token given listing,
                  listing_panics J C N S cap X tenant e w b token panics,
                  h,
                )
                | inr (params, planned) ↦
                    listing-IsUploaded token params w b _ given planned refl o w1 after (
                      sym (listing_planned J C N S cap X tenant e w b token params planned)
                      ∙ sym (entity_listing J C N S cap X tenant e w b token given listing)
                      ∙ h)
              ]
        ]
