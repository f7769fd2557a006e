-- ===== src/Cli/Run/Plan.antt =====
-- What the sub-runs of a backfill cover (core/crates/xero-cli/src/sync.rs and resolve.rs).
use xero_visma_v.Base.{
  ℕ, ◌+◌, ◌*◌, ◌≤◌, ◌<◌, ◌≡◌, refl, ap, ap₂, ◌∙◌, Bool, true, false, not, ◌&&◌, ◌||◌, some, List,
  [], ◌∷◌, ◌++◌, is_nil, filter, leb, if◌then◌else◌, arith, Bool-cases, inl, inr,
}
use xero_visma_v.Foreign.{Chrono}
use xero_visma_v.Foreign.Laws.{IsCalendar}
use xero_visma_v.Entity.{EntityType, entity_eq, is_date_windowable}
use xero_visma_v.Entity.Equality.{entity_eq→eq}
use xero_visma_v.Sync.Mode.{
  SyncMode, incremental, open_sweep, rolling_full, master, backfill, reports,
}
use xero_visma_v.Cli.Resolve.Chunks.{windows_with, backfill_chunks-IsTiling}
use xero_visma_v.Cli.Run.{SubRun, full_run, window_runs, backfill_runs}

-- How often the list holds the entity.
abbrev pub occurrences : EntityType → List EntityType → ℕ
occurrences e [] = 0
occurrences e (x ∷ xs) = (if entity_eq x e then 1 else 0) + occurrences e xs

occurrences-filter :
    (p : EntityType → Bool) (e : EntityType) (es : List EntityType)
    → occurrences e (filter p es) ≡ (if p e then occurrences e es else 0)
occurrences-filter p e [] = ground arith
occurrences-filter p e (x ∷ xs) =
    let later = occurrences-filter p e xs in
    elim (Bool-cases (entity_eq x e)) [
      | inl same ↦ ground (arith, later, same, ap p (entity_eq→eq x e same))
      | inr other ↦ ground (arith, later, other)
    ]

occurrences-nil : (e : EntityType) (es : List EntityType) → is_nil es ≡ true → occurrences e es ≡ 0
occurrences-nil e [] h = refl
occurrences-nil e (x ∷ xs) h = cc h

-- The two parts of a backfill pull `n` times what is dated outside the windows, or inside them.
parts_sum :
    (dated inside : Bool) (first windows later n : ℕ)
    → first ≡ (if not dated then n else 0)
    → later ≡ (if dated then n else 0)
    → windows ≡ (if inside then 1 else 0)
    → first + windows * later ≡ (if not dated || inside then n else 0)
parts_sum true true first windows later n h1 h2 h3 = rw h1 (rw h2 (rw h3 (omega arith)))
parts_sum true false first windows later n h1 h2 h3 = rw h1 (rw h2 (rw h3 (omega arith)))
parts_sum false inside first windows later n h1 h2 h3 = rw h1 (rw h2 (omega arith))

module _ (C : Chrono) where
  -- Whether a run of the mode pulls what is dated on the day.
  abbrev pub pulls : SyncMode C.Date → ℕ → Bool
  pulls master d = true
  pulls (backfill from last) d = leb (C.day from) d && leb d (C.day last)
  pulls incremental d = false
  pulls (open_sweep w) d = false
  pulls (rolling_full days) d = false
  pulls (reports as_of) d = false

  -- How often the runs pull the entity's records of the day.
  abbrev pub times_pulled : EntityType → ℕ → List (SubRun C) → ℕ
  times_pulled e d [] = 0
  times_pulled e d (r ∷ rest) =
      (if pulls r.mode d then occurrences e r.entities else 0) + times_pulled e d rest

  times_pulled-append :
      (e : EntityType) (d : ℕ) (xs ys : List (SubRun C))
      → times_pulled e d (xs ++ ys) ≡ times_pulled e d xs + times_pulled e d ys
  times_pulled-append e d [] ys = omega arith
  times_pulled-append e d (x ∷ xs) ys = omega (arith, times_pulled-append e d xs ys)

  times_pulled-full_run :
      (e : EntityType) (d : ℕ) (to : C.Date) (es : List EntityType)
      → times_pulled e d (full_run C to es) ≡ occurrences e es
  unfolding full_run
  times_pulled-full_run e d to [] = refl
  times_pulled-full_run e d to (x ∷ xs) = omega arith

  times_pulled-window_runs :
      (e : EntityType) (d : ℕ) (es : List EntityType) (chunks : List (C.Date × C.Date))
      → times_pulled e d (window_runs C es chunks) ≡ windows_with C d chunks * occurrences e es
  unfolding window_runs
  times_pulled-window_runs e d es [] = omega arith
  times_pulled-window_runs e d es ((from, last) ∷ rest) =
      let later = times_pulled-window_runs e d es rest in
      elim (Bool-cases (leb (C.day from) d && leb d (C.day last))) [
        | inl within ↦ rw within (grind (arith, later))
        | inr outside ↦ rw outside (grind (arith, later))
      ]

  module _ (L : IsCalendar C) where
    -- For a last day before the greatest date, and rounds enough for each day of the range and one
    -- more, the sub-runs of a backfill pull the records that a date-windowable entity has on a day
    -- as often as the entity was asked for if the day is in the range, and never otherwise; any
    -- other entity is pulled in full as often as it was asked for.
    pub backfill_runs-times_pulled :
        (fuel : ℕ) (from to : C.Date) (months : ℕ) (entities : List EntityType)
        → 1 ≤ fuel
        → C.day to + 1 < fuel + C.day from
        → C.day to < C.day C.max_date
        → (runs : List (SubRun C)) × (backfill_runs C fuel from to months entities ≡ some runs)
          × ((e : EntityType) (d : ℕ)
              → times_pulled e d runs ≡ (
                  if not (is_date_windowable e) || (leb (C.day from) d && leb d (C.day to))
                  then occurrences e entities
                  else 0))
    unfolding backfill_runs
    backfill_runs-times_pulled fuel from to months entities positive enough inside =
        let (chunks, found, tiles, once) =
          backfill_chunks-IsTiling C L fuel from to months positive enough inside in
        let undated =
          λ (e : EntityType). occurrences-filter (λ x. not (is_date_windowable x)) e entities in
        let dated = λ (e : EntityType). occurrences-filter is_date_windowable e entities in
        let full_once = filter (λ x. not (is_date_windowable x)) entities in
        let windowable = filter is_date_windowable entities in
        elim (Bool-cases (is_nil (filter is_date_windowable entities))) [
          | inl empty ↦ rw empty (
            _,
            refl,
            λ e d.
                times_pulled-full_run e d to full_once
                ∙ undated e
                ∙ ground (arith, dated e, occurrences-nil e windowable empty),
          )
          | inr some_windowable ↦ rw some_windowable (
              rw found (
                _,
                refl,
                λ e d.
                    times_pulled-append e d (full_run C to full_once)
                      (window_runs C windowable chunks)
                    ∙ ap₂ ◌+◌ (times_pulled-full_run e d to full_once)
                        (times_pulled-window_runs e d windowable chunks)
                    ∙ parts_sum (is_date_windowable e) (leb (C.day from) d && leb d (C.day to)) _ _
                        _ _ (undated e) (dated e) (once d),
              ))
        ]
