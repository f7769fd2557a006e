-- ===== src/Sync/Job/Contents.antt =====
-- The uploads of core/crates/xero-sync/src/lib.rs into any sink that keeps texts by key: no page
-- overwrites another, so that after a run of an entity the sink holds each of its pages.
use xero_visma_v.Base.{
  ℕ, ◌+◌, ◌%◌, ◌^◌, ◌≤◌, ◌<◌, ◌≡◌, refl, sym, ap, ◌∙◌, ◌≢◌, false, some, List, [], ◌∷◌, Text,
  text_eq, text_eq→eq, text_eq_refl, Result, ok, err, length, All, All-weaken, arith, Bool-cases,
  inl, inr,
}
use xero_visma_v.Errors.{GcsError}
use xero_visma_v.Client.Fetch.{RawPage}
use xero_visma_v.Client.Pages.Numbers.{NumberedBy, wrapping}
use xero_visma_v.Gcs.Keys.{sidecar_key}
use xero_visma_v.Gcs.Meta.{ObjectMeta}
use xero_visma_v.Gcs.Sink.Writes.{RawSink}
use xero_visma_v.Gcs.Store.{Contents, set, IsStore}
use xero_visma_v.Sync.Job.{then_put, put_pages}

text_eq-ne : (s t : Text) → s ≢ t → text_eq s t ≡ false
text_eq-ne s t apart = elim (Bool-cases (text_eq s t)) [
  | inl same ↦ absurd (apart (text_eq→eq s t same))
  | inr other ↦ other
]

module _ (pretty : ObjectMeta → Text) (key_of : RawPage → Text)
    (meta_of : RawPage → ObjectMeta) where
  -- The contents after the pages are put, one after the other.
  abbrev pub put_all : List RawPage → Contents → Contents
  put_all [] m = m
  put_all (p ∷ ps) m =
      put_all ps (set (sidecar_key (key_of p)) (pretty (meta_of p)) (set (key_of p) p.body m))

  -- A key that is neither that of the page nor that of its sidecar.
  abbrev pub IsOther : Text → RawPage → Type 0
  IsOther k p = (key_of p ≢ k) × (sidecar_key (key_of p) ≢ k)

  -- A page and its sidecar stand in the contents.
  abbrev pub IsHeld : Contents → RawPage → Type 0
  IsHeld m p =
      (m (key_of p) ≡ some p.body) × (m (sidecar_key (key_of p)) ≡ some (pretty (meta_of p)))

  set-other :
      (k : Text) (p : RawPage) (m : Contents)
      → IsOther k p
      → set (sidecar_key (key_of p)) (pretty (meta_of p)) (set (key_of p) p.body m) k ≡ m k
  set-other k p m (page, side) =
      rw (text_eq-ne (sidecar_key (key_of p)) k side, text_eq-ne (key_of p) k page) refl

  put_all-other :
      (k : Text) (ps : List RawPage) (m : Contents) → All (IsOther k) ps → put_all ps m k ≡ m k
  put_all-other k [] m h = refl
  put_all-other k (p ∷ ps) m h = put_all-other k ps _ h.1 ∙ set-other k p m h.0

  module _ (distinct : (p q : RawPage) → p.page ≢ q.page → key_of p ≢ key_of q)
      (sides : (p q : RawPage) → p.page ≢ q.page → sidecar_key (key_of p) ≢ sidecar_key (key_of q))
      (apart : (p q : RawPage) → sidecar_key (key_of p) ≢ key_of q) where
    later_pages :
        (n k : ℕ) (ps : List RawPage)
        → 1 ≤ k
        → k + length ps ≤ 2 ^ 32
        → n < 2 ^ 32
        → NumberedBy wrapping ((n + k) % 2 ^ 32) ps
        → All (λ q. q.page ≢ n) ps
    later_pages n k [] positive few fits h = tt
    later_pages n k (p ∷ ps) positive few fits h =
        let shift : wrapping ((n + k) % 2 ^ 32) ≡ (n + (k + 1)) % 2 ^ 32 = omega arith in
        (
          λ e. omega (arith, e, h.0),
          later_pages n (k + 1) ps (omega arith) (omega arith) fits (rw shift at h.1),
        )

    pub put_all-IsHeld :
        (n : ℕ) (ps : List RawPage) (m : Contents)
        → n < 2 ^ 32
        → length ps ≤ 2 ^ 32
        → NumberedBy wrapping n ps
        → All (IsHeld (put_all ps m)) ps
    put_all-IsHeld n [] m fits few h = tt
    put_all-IsHeld n (p ∷ ps) m fits few h =
        let others = later_pages n 1 ps (omega arith) (omega arith) fits h.1 in
        let other : (q : RawPage) → q.page ≢ n → q.page ≢ p.page = λ q ne e. ne (e ∙ h.0) in
        let page_kept = put_all-other (key_of p) ps _ (
          All-weaken _ (IsOther (key_of p)) (λ q ne. (distinct q p (other q ne), apart q p)) ps
            others) in
        let side_kept = put_all-other (sidecar_key (key_of p)) ps _ (
          All-weaken _ (IsOther (sidecar_key (key_of p)))
            (λ q ne. (λ e. apart p q (sym e), sides q p (other q ne))) ps others) in
        (
          (
            page_kept
                ∙ rw
                    (
                      text_eq-ne (sidecar_key (key_of p)) (key_of p) (apart p p),
                      text_eq_refl (key_of p),
                    )
                    refl,
            side_kept ∙ rw (text_eq_refl (sidecar_key (key_of p))) refl,
          ),
          put_all-IsHeld (wrapping n) ps _ (omega arith) (omega arith) h.1,
        )

  module _ (S : RawSink) (L : IsStore S pretty) where
    put_split :
        (r : Result GcsError (Unit {0}) × S.State) (next : S.State → Result Text ℕ × S.State)
        (sum : ℕ) (after : S.State)
        → then_put r next ≡ (ok sum, after)
        → (s : S.State) × (r ≡ (ok tt, s)) × (next s ≡ (ok sum, after))
    put_split (ok _, s) next sum after h = (s, refl, h)
    put_split (err e, s) next sum after h = cc h

    -- In such a sink, uploads that succeed put the pages one after the other.
    pub put_pages-put_all :
        (ps : List RawPage) (total sum : ℕ) (s after : S.State)
        → put_pages S key_of meta_of ps total s ≡ (ok sum, after)
        → L.contents after ≡ put_all ps (L.contents s)
    unfolding put_pages
    put_pages-put_all [] total sum s after h = ap (λ r. L.contents r.1) (sym h)
    put_pages-put_all (p ∷ ps) total sum s after h =
        let (s1, put, later) = put_split _ _ sum after h in
        put_pages-put_all ps (total + p.record_count) sum s1 after later
        ∙ ap (put_all ps) (L.put_ok (key_of p) p.body (meta_of p) s s1 put)
