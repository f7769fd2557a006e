-- ===== src/Sync/Pump/Order.antt =====
-- A run forgets the order in which its units end: its outcomes, as a bag, are those of a sequential
-- loop over the units.
use xero_visma_v.Base.{
  ℕ, ◌≡◌, refl, ap, ap₂, ◌∙◌, subst, List, [], ◌∷◌, ◌++◌, append_assoc, append-nil, map, length,
  ltb, arith, Bool-cases, inl, inr,
}
use mathlib.Core.List.{Perm, perm_middle}
use mathlib.Core.List.Perm
use mathlib.Core.Quot
use xero_visma_v.Base.Bags.{of_list}
use xero_visma_v.Sync.Pump.{
  clamped, UnitOfWork, Pump, prime, on_outcome, Step, ends, Reaches, primed, step,
}
use xero_visma_v.Sync.Pump.Laws.{Reaches-IsSound}

module _ {ℓ κ} {O : Type ℓ} (Yields : UnitOfWork → O → Type κ)
    -- the outcome of a unit, which depends on the unit alone
    (f : UnitOfWork → O) (fixed : (u : UnitOfWork) (o : O) → Yields u o → o ≡ f u)
    (max_concurrent : ℕ) (us : List UnitOfWork) where
  -- The outcomes that a state has and those that it is going to have.
  abbrev in_all : Pump O → List O
  in_all s = s.outcomes ++ map f (s.in_flight ++ s.pending)

  prime-in_all :
      (concurrency : ℕ) (in_flight pending : List UnitOfWork)
      → in_all (prime concurrency in_flight pending) ≡ map f (in_flight ++ pending)
  unfolding prime
  prime-in_all concurrency in_flight [] = refl
  prime-in_all concurrency in_flight (u ∷ rest) =
      elim (Bool-cases (ltb (length in_flight) concurrency)) [
        | inl free ↦ rw free (
            prime-in_all concurrency (in_flight ++ u ∷ []) rest
            ∙ ap (map f) (append_assoc in_flight (u ∷ []) rest))
        | inr none_free ↦ rw none_free refl
      ]

  on_outcome-in_all :
      (left : List UnitOfWork) (o : O) (pending : List UnitOfWork) (outcomes : List O)
      → in_all (on_outcome left o pending outcomes) ≡ outcomes ++ (o ∷ map f (left ++ pending))
  unfolding on_outcome
  on_outcome-in_all left o [] outcomes = append_assoc outcomes (o ∷ []) (map f (left ++ []))
  on_outcome-in_all left o (u ∷ rest) outcomes =
      ap (λ vs. (outcomes ++ o ∷ []) ++ map f vs) (append_assoc left (u ∷ []) rest)
      ∙ append_assoc outcomes (o ∷ []) (map f (left ++ u ∷ rest))

  Step-in_all : {s t : Pump O} → Step Yields s t → Perm (in_all t) (in_all s)
  Step-in_all (ends {pending} {outcomes} before u after o y) =
      rw
        (
          on_outcome-in_all (before ++ after) o pending outcomes,
          fixed u o y,
          append_assoc before after pending,
          append_assoc before (u ∷ after) pending,
        )
        (Perm.append_left outcomes (Perm.symm (Perm.map f (perm_middle before (after ++ pending)))))

  Reaches-in_all : {s : Pump O} → Reaches Yields max_concurrent us s → Perm (in_all s) (map f us)
  Reaches-in_all primed = rw (prime-in_all (clamped max_concurrent) [] us) (Perm.refl _)
  Reaches-in_all (step r s) = Perm.trans (Step-in_all s) (Reaches-in_all r)

  -- Where the outcome of a unit depends on the unit alone, and names it: when nothing is in flight
  -- any more, the outcomes of the run are those of a loop over its units, up to the order in which
  -- the units ended.
  pub Reaches-of_list :
      (unit_of : O → UnitOfWork)
      → ((u : UnitOfWork) (o : O) → Yields u o → unit_of o ≡ u)
      → {s : Pump O} → Reaches Yields max_concurrent us s
      → s.in_flight ≡ []
      → of_list s.outcomes ≡ of_list (map f us)
  unfolding clamped
  Reaches-of_list unit_of named {s} r ended =
      let sound = Reaches-IsSound Yields unit_of named max_concurrent us r in
      let spent : s.pending ≡ [] = sound.full (rw ended (omega arith)) in
      let all : in_all s ≡ s.outcomes =
        ap₂ (λ xs ys. s.outcomes ++ map f (xs ++ ys)) ended spent ∙ append-nil s.outcomes in
      Quot.sound (subst (λ xs. Perm xs (map f us)) all (Reaches-in_all r))
