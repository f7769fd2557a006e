-- ===== src/Client/Listing/Laws.antt =====
-- A fetch by business date of core/crates/xero-client/src/lib.rs returns nothing outside its window.
use xero_visma_v.Base.{
  ℕ, ◌≤◌, ◌<◌, ◌≡◌, refl, Bool, true, false, not, Option, none, some, List, [], ◌∷◌, Text, Result,
  ok, err, filter, All, All-weaken, inl, inr, Bool-cases, arith, if◌then◌else◌,
}
use xero_visma_v.Errors.{Error}
use xero_visma_v.Foreign.{Chrono, Json}
use xero_visma_v.Entity.{EntityType}
use xero_visma_v.Client.Http.{Network, World, Run, then_run, ◌>>=◌}
use xero_visma_v.Client.Query.{
  BusinessDateQueryMode, business_date_query_mode, supports_page_pagination,
}
use xero_visma_v.Client.Fetch.{XeroApiClient}
use xero_visma_v.Client.Window.{DateWindow}
use xero_visma_v.Client.Records.{
  record_business_date, in_window, filter_records_by_business_date_window,
}
use xero_visma_v.Client.Pages.{PaginationOutcome, single_page}
use xero_visma_v.Client.Listing.{
  FetchResult, is_local_only, in_this_window, fetch_in_mode, in_some_mode,
  fetch_by_business_date_tracked,
}

filter-All {ℓ} : {A : Type ℓ} (p : A → Bool) (xs : List A) → All (λ x. p x ≡ true) (filter p xs)
filter-All p [] = tt
filter-All p (x ∷ xs) = elim (Bool-cases (p x)) [
  | inl kept ↦ rw kept (kept, filter-All p xs)
  | inr dropped ↦ rw dropped (filter-All p xs)
]

-- A chain that returns has a last step that does.
last_step {ℓ κ} :
    {A : Type ℓ} {B : Type κ} (m : Option (Result Error A × World)) (f : A → Run B) (b : B)
    (v : World)
    → then_run m f ≡ some (ok b, v)
    → (a : A) × (u : World) × (f a u ≡ some (ok b, v))
last_step none f b v h = cc h
last_step (some (ok a, u)) f b v h = (a, u, h)
last_step (some (err e, u)) f b v h = cc h

module _ (J : Json) (C : Chrono) where
  -- A record with a business date in the window.
  pub record IsInWindow (e : EntityType) (window : DateWindow C.Date) (r : J.Value) : Type 0 where
    pub date : C.Date
    pub dated : record_business_date J C e r ≡ some date
    pub late : C.day window.start ≤ C.day date
    pub early : C.day date < C.day window.end_exclusive

  in_window-IsInWindow :
      (e : EntityType) (window : DateWindow C.Date) (r : J.Value) (o : Option C.Date)
      → record_business_date J C e r ≡ o
      → in_window J C window o ≡ true
      → IsInWindow e window r
  unfolding in_window
  in_window-IsInWindow e window r none dated kept = cc kept
  in_window-IsInWindow e window r (some d) dated kept = record {
    date = d;
    dated = dated;
    late = ground (arith, kept);
    early = ground (arith, kept);
  }

  filter-IsInWindow :
      (e : EntityType) (window : DateWindow C.Date) (records : List J.Value)
      → All (IsInWindow e window) (filter_records_by_business_date_window J C e records window)
  unfolding filter_records_by_business_date_window
  filter-IsInWindow e window records =
      All-weaken (λ r. in_window J C window (record_business_date J C e r) ≡ true)
        (IsInWindow e window) (λ r kept. in_window-IsInWindow e window r _ refl kept) _
        (filter-All (λ r. in_window J C window (record_business_date J C e r)) records)

  module _ (N : Network) (client : XeroApiClient) (token : Text) (cap : ℕ) where
    in_this_window-IsInWindow :
        (e : EntityType) (window : DateWindow C.Date) (found : List J.Value × PaginationOutcome)
        (u : World) (r : FetchResult J.Value) (v : World)
        → in_this_window J C N client token cap e window found u ≡ some (ok r, v)
        → All (IsInWindow e window) r.records
    unfolding in_this_window
    in_this_window-IsInWindow e window (records, outcome) u r v h =
        let same : filter_records_by_business_date_window J C e records window ≡ r.records = cc h in
        rw (← same) (filter-IsInWindow e window records)

    -- A call whose results are in the window.
    record IsSafe (e : EntityType) (window : DateWindow C.Date) (m : Run (FetchResult J.Value))
        : Type 0 where
      safe :
          (w : World) (r : FetchResult J.Value) (v : World)
          → m w ≡ some (ok r, v)
          → All (IsInWindow e window) r.records

    if-IsSafe :
        (e : EntityType) (window : DateWindow C.Date) (b : Bool) (m n : Run (FetchResult J.Value))
        → IsSafe e window m
        → IsSafe e window n
        → IsSafe e window (if b then m else n)
    if-IsSafe e window true m n first second = first
    if-IsSafe e window false m n first second = second

    in_this_window-IsSafe :
        (e : EntityType) (window : DateWindow C.Date) (m : Run (List J.Value × PaginationOutcome))
        → IsSafe e window (m >>= in_this_window J C N client token cap e window)
    in_this_window-IsSafe e window m = record {
      safe = λ w r v h.
          let (found, u, last) =
            last_step (m w) (in_this_window J C N client token cap e window) r v h in
          in_this_window-IsInWindow e window found u r v last;
    }

    in_one_page-IsSafe :
        (e : EntityType) (window : DateWindow C.Date) (m : Run (List J.Value))
        → IsSafe e window
            (m >>= λ records. in_this_window J C N client token cap e window (records, single_page))
    in_one_page-IsSafe e window m = record {
      safe = λ w r v h.
          let (found, u, last) =
            last_step (m w)
              (λ records. in_this_window J C N client token cap e window (records, single_page)) r v
              h in
          in_this_window-IsInWindow e window (found, single_page) u r v last;
    }

    in_mode-IsSafe :
        (e : EntityType) (window : DateWindow C.Date) (page_size : ℕ)
        (o : Option BusinessDateQueryMode)
        → IsSafe e window (in_some_mode J C N client token cap e window page_size o)
    unfolding fetch_in_mode
    in_mode-IsSafe e window page_size none = record { safe = λ w r v h. cc h }
    in_mode-IsSafe e window page_size (some mode) =
        if-IsSafe e window (is_local_only mode) _ _ (in_this_window-IsSafe e window _) (
          if-IsSafe e window (not (supports_page_pagination e)) _ _ (in_one_page-IsSafe e window _)
            (in_this_window-IsSafe e window _))

    -- Whatever the server sends, and however its pages end, every record that a fetch by business
    -- date returns has a business date in the window.
    pub fetch_by_business_date_tracked-IsInWindow :
        (e : EntityType) (window : DateWindow C.Date) (page_size : ℕ) (w : World)
        (r : FetchResult J.Value) (v : World)
        → fetch_by_business_date_tracked J C N client token cap e window page_size w
          ≡ some (ok r, v)
        → All (IsInWindow e window) r.records
    unfolding fetch_by_business_date_tracked
    fetch_by_business_date_tracked-IsInWindow e window page_size w r v h =
        (in_mode-IsSafe e window page_size (business_date_query_mode e)).safe w r v h
