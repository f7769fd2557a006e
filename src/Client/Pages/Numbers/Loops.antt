-- ===== src/Client/Pages/Numbers/Loops.antt =====
-- The two loops over pages of core/crates/xero-client/src/lib.rs collect pages that are numbered in
-- turn, if the call for a page returns the number it is asked for.
use xero_visma_v.Base.{
  ℕ, zero, suc, ◌+◌, ◌-◌, ◌%◌, ◌^◌, ◌≤◌, ◌≡◌, refl, sym, ◌∙◌, false, ℤ, leb_ℤ, Option, none, some,
  List, [], ◌∷◌, ◌++◌, append_assoc, append-nil, Result, ok, err, length, leb, ltb, ◌==◌, arith,
  Bool-cases, inl, inr,
}
use xero_visma_v.Errors.{Error}
use xero_visma_v.Config.{or_default}
use xero_visma_v.Client.Http.{World, Run}
use xero_visma_v.Client.Fetch.{RawPage}
use xero_visma_v.Client.Pages.{PaginationOutcome, should_stop_page_pagination, pages_loop}
use xero_visma_v.Client.Pages.Journals.{journals_loop}

-- Page `n`, the page after it, and so on.
abbrev pub NumberedBy : (ℕ → ℕ) → ℕ → List RawPage → Type 0
NumberedBy after n [] = Unit
NumberedBy after n (p ∷ ps) = (p.page ≡ n) × NumberedBy after (after n) ps

-- `page += 1` of a `u32`
abbrev pub wrapping : ℕ → ℕ
wrapping n = (n + 1) % 2 ^ 32

-- A call whose page, where it returns one, has the number it was asked for.
abbrev pub IsNumbered : (ℕ → Run RawPage) → Type 0
IsNumbered get =
    (n : ℕ) (w : World) (x : RawPage) (v : World) → get n w ≡ some (ok x, v) → x.page ≡ n

module _ (after : ℕ → ℕ) where
  -- What a loop that holds `all` returns, from page `n` on: at most `most` pages more.
  abbrev pub Adds :
      ℕ
      → ℕ
      → List RawPage
      → Option (Result Error (List RawPage × PaginationOutcome) × World)
      → Type 0
  Adds n most all none = Unit
  Adds n most all (some (err e, v)) = Unit
  Adds n most all (some (ok (pages, outcome), v)) =
      (found : List RawPage) × (pages ≡ all ++ found)
      × NumberedBy after n found
      × (length found ≤ most)

  Adds-more :
      (n most : ℕ) (all : List RawPage) (x : RawPage)
      (r : Option (Result Error (List RawPage × PaginationOutcome) × World))
      → x.page ≡ n
      → Adds (after n) most (all ++ x ∷ []) r
      → Adds n (suc most) all r
  Adds-more n most all x none number h = tt
  Adds-more n most all x (some (err e, v)) number h = tt
  Adds-more n most all x (some (ok (pages, outcome), v)) number (found, same, later, few) =
      (x ∷ found, same ∙ append_assoc all (x ∷ []) found, (number, later), omega (arith, few))

module _ (get : ℕ → Run RawPage) (numbered : IsNumbered get) (cap : ℕ) where
  abbrev pub loop : ℕ → ℕ → List RawPage → Run (List RawPage × PaginationOutcome)
  loop = pages_loop get (λ raw. raw ∷ []) (λ raw. raw.record_count) cap

  round-Adds :
      (fuel n : ℕ) (all : List RawPage) (w : World) (r : Option (Result Error RawPage × World))
      → get n w ≡ r
      → ltb cap n ≡ false
      → ((found : List RawPage) (v : World)
          → Adds wrapping (wrapping n) fuel found (loop fuel (wrapping n) found v))
      → Adds wrapping n (suc fuel) all (loop (suc fuel) n all w)
  unfolding pages_loop
  round-Adds fuel n all w none got within later = rw (within, got) tt
  round-Adds fuel n all w (some (err e, v)) got within later = rw (within, got) tt
  round-Adds fuel n all w (some (ok x, v)) got within later =
      elim (Bool-cases (should_stop_page_pagination x.record_count)) [
        | inl stop ↦ rw (within, got, stop) (x ∷ [], refl, (numbered n w x v got, tt), omega arith)
        | inr on ↦
            rw (within, got, on)
              (Adds-more wrapping n fuel all x (loop fuel (wrapping n) (all ++ x ∷ []) v)
                (numbered n w x v got) (later (all ++ x ∷ []) v))
      ]

  pub pages_loop-Adds :
      (fuel n : ℕ) (all : List RawPage) (w : World) → Adds wrapping n fuel all (loop fuel n all w)
  unfolding pages_loop
  pages_loop-Adds zero n all w = tt
  pages_loop-Adds (suc fuel) n all w = elim (Bool-cases (ltb cap n)) [
    | inl over ↦ rw over ([], sym (append-nil all), tt, omega arith)
    | inr within ↦
        round-Adds fuel n all w (get n w) refl within
          (λ found v. pages_loop-Adds fuel (wrapping n) found v)
  ]

module _ (get : ℤ → ℕ → Run RawPage) (numbered : (o : ℤ) → IsNumbered (get o))
    (last : RawPage → Option ℤ) (cap : ℕ) where
  abbrev pub by_offset : ℕ → ℕ → ℤ → List RawPage → Run (List RawPage × PaginationOutcome)
  by_offset = journals_loop get (λ raw. raw ∷ []) (λ raw. raw.record_count) last cap

  offset-Adds :
      (fuel n : ℕ) (o : ℤ) (all : List RawPage) (w : World)
      (r : Option (Result Error RawPage × World))
      → get o (suc n) w ≡ r
      → leb cap n ≡ false
      → ((next : ℤ) (found : List RawPage) (v : World)
          → Adds suc (suc (suc n)) (cap - suc n) found (by_offset fuel (suc n) next found v))
      → Adds suc (suc n) (cap - n) all (by_offset (suc fuel) n o all w)
  unfolding journals_loop
  offset-Adds fuel n o all w none got within later = rw (within, got) tt
  offset-Adds fuel n o all w (some (err e, v)) got within later = rw (within, got) tt
  offset-Adds fuel n o all w (some (ok x, v)) got within later =
      let next = or_default (last x) o in
      let left : suc (cap - suc n) ≡ cap - n = ground (arith, within) in
      let one : (found : List RawPage) × (all ++ x ∷ [] ≡ all ++ found)
          × NumberedBy suc (suc n) found
          × (length found ≤ cap - n) =
        (x ∷ [], refl, (numbered o (suc n) w x v got, tt), omega (arith, left)) in
      elim (Bool-cases (x.record_count == 0)) [
        | inl empty ↦ rw (within, got, empty) one
        | inr full ↦ elim (Bool-cases (leb_ℤ next o)) [
          | inl stuck ↦ rw (within, got, full, stuck) one
          | inr on ↦
              rw (within, got, full, on)
                (rw left at (
                  Adds-more suc (suc n) (cap - suc n) all x
                    (by_offset fuel (suc n) next (all ++ x ∷ []) v) (numbered o (suc n) w x v got)
                    (later next (all ++ x ∷ []) v)))
        ]
      ]

  pub journals_loop-Adds :
      (fuel n : ℕ) (o : ℤ) (all : List RawPage) (w : World)
      → Adds suc (suc n) (cap - n) all (by_offset fuel n o all w)
  unfolding journals_loop
  journals_loop-Adds zero n o all w = tt
  journals_loop-Adds (suc fuel) n o all w = elim (Bool-cases (leb cap n)) [
    | inl over ↦ rw over ([], sym (append-nil all), tt, omega arith)
    | inr within ↦
        offset-Adds fuel n o all w (get o (suc n) w) refl within
          (λ next found v. journals_loop-Adds fuel (suc n) next found v)
  ]
