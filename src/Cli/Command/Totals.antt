-- ===== src/Cli/Command/Totals.antt =====
-- What `report_summary` of core/crates/xero-cli/src/sync.rs prints for a run does not depend on the
-- order in which the units of the run end.
use xero_visma_v.Base.{
  ℕ, ◌≡◌, refl, List, [], ◌∷◌, map, Text, length, if◌then◌else◌, arith, Bool-cases, inl, inr,
  is_none,
}
use xero_visma_v.Base.Bags.{sum_of, of_list, total_congr}
use xero_visma_v.Foreign.{Chrono}
use xero_visma_v.Sync.Job.{EntityOutcome}
use xero_visma_v.Sync.Mode.{SyncMode}
use xero_visma_v.Sync.Pump.{UnitOfWork, Pump, Reaches}
use xero_visma_v.Sync.Pump.Order.{Reaches-of_list}
use xero_visma_v.Cli.Command.{failed_units, run_manifest, Summary, report_summary}

-- One for an outcome that has an error.
abbrev failures : EntityOutcome → ℕ
failures o = if is_none o.error then 0 else 1

length-failed_units : (os : List EntityOutcome) → length (failed_units os) ≡ sum_of failures os
length-failed_units [] = refl
length-failed_units (o ∷ os) = elim (Bool-cases (is_none o.error)) [
  | inl fine ↦ rw fine (omega (arith, length-failed_units os))
  | inr failed ↦ rw failed (omega (arith, length-failed_units os))
]

-- The number of units, the totals and the number of errors.
abbrev pub figures : Summary → (ℕ × ℕ) × (ℕ × ℕ)
figures m = ((m.entities, m.pages), (m.records, length m.errors))

length-sum_of : (os : List EntityOutcome) → length os ≡ sum_of (λ o. 1) os
length-sum_of [] = refl
length-sum_of (o ∷ os) = omega (arith, length-sum_of os)

module _ (C : Chrono) (run_id started finished : Text) (mode : SyncMode C.Date) where
  abbrev pub figures_of : List EntityOutcome → (ℕ × ℕ) × (ℕ × ℕ)
  figures_of os = figures (report_summary (run_manifest C run_id started finished mode os))

  figures_of_congr :
      (xs ys : List EntityOutcome) → of_list xs ≡ of_list ys → figures_of xs ≡ figures_of ys
  unfolding report_summary run_manifest
  figures_of_congr xs ys e =
      rw
        (
          length-sum_of xs,
          length-sum_of ys,
          length-failed_units xs,
          length-failed_units ys,
          total_congr (λ o. 1) xs ys e,
          total_congr (λ o. o.pages) xs ys e,
          total_congr (λ o. o.records) xs ys e,
          total_congr failures xs ys e,
        )
        refl

  module _ {κ} (Yields : UnitOfWork → EntityOutcome → Type κ) (f : UnitOfWork → EntityOutcome)
      (unit_of : EntityOutcome → UnitOfWork) where
    -- Where the outcome of a unit depends on the unit alone, and names it: the numbers of units,
    -- pages, records and errors that a run prints when nothing is in flight any more are those of a
    -- loop over its units, whatever its concurrency and the order in which the units ended.
    pub report_summary-Reaches :
        ((u : UnitOfWork) (o : EntityOutcome) → Yields u o → o ≡ f u)
        → ((u : UnitOfWork) (o : EntityOutcome) → Yields u o → unit_of o ≡ u)
        → (max_concurrent : ℕ) (us : List UnitOfWork) {s : Pump EntityOutcome}
        → Reaches Yields max_concurrent us s
        → s.in_flight ≡ []
        → figures_of s.outcomes ≡ figures_of (map f us)
    report_summary-Reaches fixed named max_concurrent us {s} r ended =
        figures_of_congr s.outcomes (map f us)
          (Reaches-of_list Yields f fixed max_concurrent us unit_of named r ended)
