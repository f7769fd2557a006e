-- ===== src/Sync/Pump/Laws.antt =====
-- Whatever the order in which units end, a run has one outcome for each of its units.
use xero_visma_v.Base.{
  ℕ, ◌+◌, ◌≤◌, ◌<◌, max, ◌≡◌, refl, ap, Bool, List, [], ◌∷◌, ◌++◌, map, length, length-append, ltb,
  if◌then◌else◌, arith, Bool-cases, inl, inr,
}
use xero_visma_v.Sync.Pump.{
  clamped, UnitOfWork, Pump, prime, on_outcome, Step, ends, Reaches, primed, step,
}

-- How many items pass the test.
abbrev pub count {ℓ} : {A : Type ℓ} → (A → Bool) → List A → ℕ
count p [] = 0
count p (x ∷ xs) = (if p x then 1 else 0) + count p xs

pub count-append {ℓ} :
    {A : Type ℓ} (p : A → Bool) (xs ys : List A) → count p (xs ++ ys) ≡ count p xs + count p ys
count-append p [] ys = omega arith
count-append p (x ∷ xs) ys = omega (arith, count-append p xs ys)

count-snoc {ℓ κ} :
    {A : Type ℓ} {B : Type κ} (p : B → Bool) (f : A → B) (xs : List A) (x : A)
    → count p (map f (xs ++ x ∷ [])) ≡ count p (map f xs) + (if p (f x) then 1 else 0)
count-snoc p f [] x = omega arith
count-snoc p f (y ∷ ys) x = omega (arith, count-snoc p f ys x)

module _ {ℓ κ} {O : Type ℓ} (Yields : UnitOfWork → O → Type κ)
    -- which unit an outcome is of
    (unit_of : O → UnitOfWork) (named : (u : UnitOfWork) (o : O) → Yields u o → unit_of o ≡ u)
    (max_concurrent : ℕ) (us : List UnitOfWork) where
  -- Each unit is pending, in flight or has an outcome, the pump is never overfull, and it has room
  -- only where nothing is pending.
  pub record IsSound (s : Pump O) : Type ℓ where
    pub conserved :
        (p : UnitOfWork → Bool)
        → count p s.pending + count p s.in_flight + count p (map unit_of s.outcomes) ≡ count p us
    pub bounded : length s.in_flight ≤ clamped max_concurrent
    pub full : length s.in_flight < clamped max_concurrent → s.pending ≡ []

  prime-IsSound :
      (in_flight pending : List UnitOfWork)
      → ((p : UnitOfWork → Bool) → count p pending + count p in_flight ≡ count p us)
      → length in_flight ≤ clamped max_concurrent
      → IsSound (prime (clamped max_concurrent) in_flight pending)
  unfolding prime
  prime-IsSound in_flight [] h room = record {
    conserved = λ p. omega (arith, h p);
    bounded = room;
    full = λ _. refl;
  }
  prime-IsSound in_flight (u ∷ rest) h room =
      elim (Bool-cases (ltb (length in_flight) (clamped max_concurrent))) [
        | inl free ↦ rw free (
            prime-IsSound (in_flight ++ u ∷ []) rest
              (λ p. omega (arith, h p, count-append p in_flight (u ∷ [])))
              (ground (arith, free, length-append in_flight (u ∷ []))))
        | inr none_free ↦ rw none_free (record {
          conserved = λ p. omega (arith, h p);
          bounded = room;
          full = λ free. absurd (ground (arith, free, none_free));
        })
      ]

  -- The counts before and after `u` ends with `o`.
  one_ended :
      (pending : List UnitOfWork) (outcomes : List O) (before : List UnitOfWork) (u : UnitOfWork)
      (after : List UnitOfWork) (o : O)
      → unit_of o ≡ u
      → (p : UnitOfWork → Bool)
      → count p (before ++ after) + count p (map unit_of (outcomes ++ o ∷ []))
        ≡ count p (before ++ u ∷ after) + count p (map unit_of outcomes)
  one_ended pending outcomes before u after o same p = omega (
    arith,
    count-append p before after,
    count-append p before (u ∷ after),
    count-snoc p unit_of outcomes o,
    ap {B = ℕ} (λ v. if p v then 1 else 0) same,
  )

  on_outcome-IsSound :
      (pending : List UnitOfWork) (outcomes : List O) (before : List UnitOfWork) (u : UnitOfWork)
      (after : List UnitOfWork) (o : O)
      → unit_of o ≡ u
      → IsSound (record { pending = pending; in_flight = before ++ u ∷ after; outcomes = outcomes })
      → IsSound (on_outcome (before ++ after) o pending outcomes)
  unfolding on_outcome
  on_outcome-IsSound [] outcomes before u after o same h = record {
    conserved = λ p. omega (arith, h.conserved p, one_ended [] outcomes before u after o same p);
    bounded =
        omega (arith, h.bounded, length-append before (u ∷ after), length-append before after);
    full = λ _. refl;
  }
  on_outcome-IsSound (v ∷ rest) outcomes before u after o same h = record {
    conserved = λ p. omega (
      arith,
      h.conserved p,
      one_ended (v ∷ rest) outcomes before u after o same p,
      count-append p (before ++ after) (v ∷ []),
    );
    bounded = omega (
      arith,
      h.bounded,
      length-append before (u ∷ after),
      length-append before after,
      length-append (before ++ after) (v ∷ []),
    );
    full = λ free. absurd (not_full free);
  }
    where
      not_full : length ((before ++ after) ++ v ∷ []) < clamped max_concurrent → ⊥
      not_full free = cc (
          h.full (
            omega (
              arith,
              length-append before (u ∷ after),
              length-append before after,
              length-append (before ++ after) (v ∷ []),
            )))

  Step-IsSound : {s t : Pump O} → Step Yields s t → IsSound s → IsSound t
  Step-IsSound (ends {pending} {outcomes} before u after o y) h =
      on_outcome-IsSound pending outcomes before u after o (named u o y) h

  pub Reaches-IsSound : {s : Pump O} → Reaches Yields max_concurrent us s → IsSound s
  Reaches-IsSound primed = prime-IsSound [] us (λ p. omega arith) (omega arith)
  Reaches-IsSound (step r s) = Step-IsSound s (Reaches-IsSound r)

  -- Where each outcome is of the unit that it ended: at no moment are more than six units in
  -- flight, or more than were asked for if that is at least one, and every unit is pending, in
  -- flight or has its outcome, as often as it is in the run.
  pub Reaches-bounded :
      {s : Pump O}
      → Reaches Yields max_concurrent us s
      → (length s.in_flight ≤ 6)
        × (length s.in_flight ≤ max max_concurrent 1)
        × ((p : UnitOfWork → Bool)
            → count p s.pending + count p s.in_flight + count p (map unit_of s.outcomes)
              ≡ count p us)
  unfolding clamped
  Reaches-bounded r =
      let sound = Reaches-IsSound r in
      (omega (arith, sound.bounded), omega (arith, sound.bounded), sound.conserved)

  -- Where each outcome is of the unit that it ended: when nothing is in flight any more, the units
  -- of the outcomes are the units of the run, each as often, in whatever order they ended: none is
  -- lost and none is run twice.
  pub Reaches-complete :
      {s : Pump O} (p : UnitOfWork → Bool)
      → Reaches Yields max_concurrent us s
      → s.in_flight ≡ []
      → count p (map unit_of s.outcomes) ≡ count p us
  unfolding clamped
  Reaches-complete {s} p r ended =
      let sound = Reaches-IsSound r in
      let spent : s.pending ≡ [] = sound.full (rw ended (omega arith)) in
      let h = sound.conserved p in omega (arith, h, ap (count p) ended, ap (count p) spent)
