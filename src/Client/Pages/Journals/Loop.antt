-- ===== src/Client/Pages/Journals/Loop.antt =====
-- The loop over offsets of core/crates/xero-client/src/lib.rs, as a relation between states.
use xero_visma_v.Base.{
  ℕ, zero, suc, ◌+◌, ◌≤◌, ◌<◌, ◌≡◌, refl, ap, ℤ, leb_ℤ, true, false, Option, some, List, [], ◌∷◌,
  ◌++◌, Result, ok, err, length, ◌∙◌, append_assoc, append-nil, leb, leb→le, ◌==◌, arith,
  Bool-cases, inl, inr,
}
use xero_visma_v.Errors.{Error}
use xero_visma_v.Config.{or_default}
use xero_visma_v.Client.Http.{World, Run}
use xero_visma_v.Client.Pages.{
  PaginationOutcome, TerminationReason, ended_on_empty_page, hit_max_pages_cap,
  offset_not_advancing,
}
use xero_visma_v.Client.Pages.Laws.{all_items}
use xero_visma_v.Client.Pages.Journals.{journals_loop, should_stop_offset_pagination}

module _ {ℓ} {X : Type ℓ} (get : ℤ → ℕ → Run X) (records : X → ℕ) (last : X → Option ℤ)
    (cap : ℕ) where
  -- `Paging o n w xs t v`: from the offset `o`, after `n` pages and in the state `w`, the pages `xs`
  -- are fetched, each at the largest number of the page before it, until `t` ends the paging in the
  -- state `v`: no more pages are allowed, a fetch fails, a page is empty, or its largest number is
  -- missing or not above the offset it was fetched at.
  pub data Paging : ℤ → ℕ → World → List X → Result Error TerminationReason → World → Type ℓ where
    full : {o : ℤ} {n : ℕ} {w : World} → cap ≤ n → Paging o n w [] (ok hit_max_pages_cap) w
    fails :
        {o : ℤ} {n : ℕ} {w v : World} {e : Error}
        → n < cap
        → get o (suc n) w ≡ some (err e, v)
        → Paging o n w [] (err e) v
    empty :
        {o : ℤ} {n : ℕ} {w v : World} {x : X}
        → n < cap
        → get o (suc n) w ≡ some (ok x, v)
        → records x ≡ 0
        → Paging o n w (x ∷ []) (ok ended_on_empty_page) v
    stuck :
        {o : ℤ} {n : ℕ} {w v : World} {x : X}
        → n < cap
        → get o (suc n) w ≡ some (ok x, v)
        → 0 < records x
        → leb_ℤ (or_default (last x) o) o ≡ true
        → Paging o n w (x ∷ []) (ok offset_not_advancing) v
    next :
        {o : ℤ} {n : ℕ} {w u v : World} {x : X} {xs : List X} {t : Result Error TerminationReason}
        → n < cap
        → get o (suc n) w ≡ some (ok x, u)
        → 0 < records x
        → leb_ℤ (or_default (last x) o) o ≡ false
        → Paging (or_default (last x) o) (suc n) u xs t v
        → Paging o n w (x ∷ xs) t v

  pub Paging-length :
      {o : ℤ} {n : ℕ} {w v : World} {xs : List X} {t : Result Error TerminationReason}
      → Paging o n w xs t v
      → n ≤ cap
      → length xs + n ≤ cap
  Paging-length (full h) most = omega arith
  Paging-length (fails h got) most = omega arith
  Paging-length (empty h got none) most = omega arith
  Paging-length (stuck h got some_records back) most = omega arith
  Paging-length (next h got some_records on later) most = omega (arith, Paging-length later h)

  module _ {κ} {A : Type κ} (items : X → List A) where
    -- What the loop returns for these pages, after `n` pages with the items `all`.
    abbrev pub paged :
        ℕ
        → List A
        → List X
        → Result Error TerminationReason
        → Result Error (List A × PaginationOutcome)
    paged n all xs (err e) = err e
    paged n all xs (ok t) =
        ok (all ++ all_items items xs, record { pages_fetched = length xs + n; termination = t })

    -- The loop has gone as `Paging` says, and has given its permits back.
    pub record Pages (o : ℤ) (n : ℕ) (all : List A) (w : World)
        (r : Option (Result Error (List A × PaginationOutcome) × World)) : Type (ℓ ⊔ κ) where
      pub fetched : List X
      pub end : Result Error TerminationReason
      pub final : World
      pub paging : Paging o n w fetched end final
      pub returned : r ≡ some (paged n all fetched end, final)
      pub permit_back : final.limiter.in_flight ≡ w.limiter.in_flight

    module _
        (answered : (o : ℤ) (n : ℕ) (w : World)
          → w.limiter.in_flight < 6
          → (x : Result Error X) × (v : World) × (get o n w ≡ some (x, v))
            × (v.limiter.in_flight ≡ w.limiter.in_flight)) where
      abbrev pub loop : ℕ → ℕ → ℤ → List A → Run (List A × PaginationOutcome)
      loop = journals_loop get items records last cap

      paged-suc :
          (n : ℕ) (all : List A) (x : X) (xs : List X) (t : Result Error TerminationReason)
          → paged (suc n) (all ++ items x) xs t ≡ paged n all (x ∷ xs) t
      paged-suc n all x xs (err e) = refl
      paged-suc n all x xs (ok t) =
          let count : length xs + suc n ≡ suc (length xs) + n = omega arith in
          rw (append_assoc all (items x) (all_items items xs), count) refl

      paged_one :
          (n : ℕ) (all : List A) (x : X) (t : TerminationReason)
          → ok (all ++ items x, record { pages_fetched = suc n; termination = t })
            ≡ paged n all (x ∷ []) (ok t)
      paged_one n all x t =
          let count : suc n ≡ 1 + n = omega arith in rw (append-nil (items x), count) refl

      paged_none :
          (n : ℕ) (all : List A) (t : TerminationReason)
          → ok (all, record { pages_fetched = n; termination = t }) ≡ paged n all [] (ok t)
      paged_none n all t = let count : n ≡ 0 + n = omega arith in rw (append-nil all, ← count) refl

      page-Pages :
          (fuel n : ℕ) (o : ℤ) (all : List A) (w v : World) (x : X)
          → leb cap n ≡ false
          → get o (suc n) w ≡ some (ok x, v)
          → v.limiter.in_flight ≡ w.limiter.in_flight
          → Pages
              (or_default (last x) o)
              (suc n)
              (all ++ items x)
              v
              (loop fuel (suc n) (or_default (last x) o) (all ++ items x) v)
          → Pages o n all w (loop (suc fuel) n o all w)
      unfolding journals_loop should_stop_offset_pagination
      page-Pages fuel n o all w v x going got back later =
          let room : n < cap = ground (arith, going) in
          elim (Bool-cases (records x == 0)) [
            | inl no_records ↦
                rw (going, got, no_records)
                  (record {
                    fetched = x ∷ [];
                    end = ok ended_on_empty_page;
                    final = v;
                    paging = empty room got (ground (arith, no_records));
                    returned = ap (λ r. some (r, v)) (paged_one n all x ended_on_empty_page);
                    permit_back = back;
                  })
            | inr some_records ↦ elim (Bool-cases (leb_ℤ (or_default (last x) o) o)) [
              | inl behind ↦
                  rw (going, got, some_records, behind)
                    (record {
                      fetched = x ∷ [];
                      end = ok offset_not_advancing;
                      final = v;
                      paging = stuck room got (ground (arith, some_records)) behind;
                      returned = ap (λ r. some (r, v)) (paged_one n all x offset_not_advancing);
                      permit_back = back;
                    })
              | inr ahead ↦
                  rw (going, got, some_records, ahead)
                    (record {
                      fetched = x ∷ later.fetched;
                      end = later.end;
                      final = later.final;
                      paging = next room got (ground (arith, some_records)) ahead later.paging;
                      returned =
                          later.returned
                          ∙ ap (λ r. some (r, later.final))
                              (paged-suc n all x later.fetched later.end);
                      permit_back = later.permit_back ∙ back;
                    })
            ]
          ]

      answer-Pages :
          (fuel n : ℕ) (o : ℤ) (all : List A) (w : World)
          → leb cap n ≡ false
          → ((x : Result Error X) × (v : World) × (get o (suc n) w ≡ some (x, v))
              × (v.limiter.in_flight ≡ w.limiter.in_flight))
          → ((x : X) (v : World)
              → v.limiter.in_flight ≡ w.limiter.in_flight
              → Pages
                  (or_default (last x) o)
                  (suc n)
                  (all ++ items x)
                  v
                  (loop fuel (suc n) (or_default (last x) o) (all ++ items x) v))
          → Pages o n all w (loop (suc fuel) n o all w)
      unfolding journals_loop
      answer-Pages fuel n o all w going (err e, v, got, back) later =
          rw (going, got)
            (record {
              fetched = [];
              end = err e;
              final = v;
              paging = fails (ground (arith, going)) got;
              returned = refl;
              permit_back = back;
            })
      answer-Pages fuel n o all w going (ok x, v, got, back) later =
          page-Pages fuel n o all w v x going got back (later x v back)

      pub journals_loop-Pages :
          (fuel n : ℕ) (o : ℤ) (all : List A) (w : World)
          → cap < fuel + n
          → n ≤ cap
          → w.limiter.in_flight < 6
          → Pages o n all w (loop fuel n o all w)
      unfolding journals_loop
      journals_loop-Pages zero n o all w enough most free = absurd (omega (arith, enough, most))
      journals_loop-Pages (suc fuel) n o all w enough most free = elim (Bool-cases (leb cap n)) [
        | inl over ↦ rw over (record {
          fetched = [];
          end = ok hit_max_pages_cap;
          final = w;
          paging = full (leb→le cap n over);
          returned = ap (λ r. some (r, w)) (paged_none n all hit_max_pages_cap);
          permit_back = refl;
        })
        | inr going ↦ answer-Pages fuel n o all w going (answered o (suc n) w free) (λ x v back.
            journals_loop-Pages fuel (suc n) (or_default (last x) o) (all ++ items x) v
              (omega (arith, enough)) (ground (arith, going)) (omega (arith, free, back)))
      ]
