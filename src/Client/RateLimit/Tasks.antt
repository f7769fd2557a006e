-- ===== src/Client/RateLimit/Tasks.antt =====
-- Tasks that share the limiter of one tenant, interleaved in any order. A step is what a task does
-- between two suspensions or two locks: `acquire` tests the number in flight, may sleep, and only
-- then counts itself.
use xero_visma_v.Base.{
  ℕ, zero, suc, ◌+◌, ◌≤◌, ◌≡◌, refl, ap, subst, true, false, List, [], ◌∷◌, ◌++◌, append-nil,
  length, length-append, replicate, arith,
}
use xero_visma_v.Client.Retry.{Headers}
use xero_visma_v.Client.RateLimit.{Limiter, has_slot, take_permit, release, update_from_headers}

-- A task has no permit, has passed the test of the first loop of `acquire`, or holds its permit.
pub data Pc : Type 0 where
  idle passed holding : Pc

pub data Move (l : Limiter) : Pc → Limiter → Pc → Type 0 where
  pass : has_slot l ≡ true → Move l idle l passed
  poll : has_slot l ≡ false → Move l idle l idle
  take : {k : Limiter} → k ≡ take_permit l → Move l passed k holding
  answer :
      (headers : Headers) {k : Limiter}
      → k ≡ update_from_headers headers l
      → Move l holding k holding
  drop : {k : Limiter} → k ≡ release l → Move l holding k idle

pub record System : Type 0 where
  pub limiter : Limiter
  pub tasks : List Pc

pub data Step : System → System → Type 0 where
  turn :
      (xs ys : List Pc) {l k : Limiter} {p q : Pc}
      → Move l p k q
      → Step
          (record { limiter = l; tasks = xs ++ (p ∷ ys) })
          (record { limiter = k; tasks = xs ++ (q ∷ ys) })

pub data Reach (s : System) : System → Type 0 where
  here : Reach s s
  next : {t u : System} → Reach s t → Step t u → Reach s u

-- `n` tasks before their first request.
abbrev pub start : Limiter → ℕ → System
start l n = record { limiter = l; tasks = replicate n idle }

abbrev held : Pc → ℕ
held holding = 1
held _ = 0

pub holders : List Pc → ℕ
holders [] = 0
holders (p ∷ ps) = held p + holders ps

holders-append : (xs ys : List Pc) → holders (xs ++ ys) ≡ holders xs + holders ys
unfolding holders
holders-append [] ys = omega arith
holders-append (p ∷ xs) ys = omega (arith, holders-append xs ys)

holders-le-length : (ps : List Pc) → holders ps ≤ length ps
unfolding holders
holders-le-length [] = omega arith
holders-le-length (idle ∷ ps) = omega (arith, holders-le-length ps)
holders-le-length (passed ∷ ps) = omega (arith, holders-le-length ps)
holders-le-length (holding ∷ ps) = omega (arith, holders-le-length ps)

pub record Counts (n : ℕ) (s : System) : Type 0 where
  pub exact : s.limiter.in_flight ≡ holders s.tasks
  pub tasks_kept : length s.tasks ≡ n

Move-exact :
    {l k : Limiter} {p q : Pc} (others : ℕ)
    → Move l p k q
    → l.in_flight ≡ others + held p
    → k.in_flight ≡ others + held q
unfolding take_permit release update_from_headers
Move-exact others (pass h) e = e
Move-exact others (poll h) e = e
Move-exact others (take h) e = ground arith
Move-exact others (answer headers h) e = ground arith
Move-exact others (drop h) e = ground arith

Step-Counts : {n : ℕ} {s t : System} → Step s t → Counts n s → Counts n t
unfolding holders
Step-Counts (turn xs ys {p = p} {q = q} mv) c = record {
  exact =
      let before = holders-append xs (p ∷ ys) in
      let after = holders-append xs (q ∷ ys) in
      omega (
        arith,
        before,
        after,
        Move-exact (holders xs + holders ys) mv (omega (arith, before, c.exact)),
      );
  tasks_kept = omega (arith, c.tasks_kept, length-append xs (p ∷ ys), length-append xs (q ∷ ys));
}

holders-idle : (n : ℕ) → holders (replicate n idle) ≡ 0
unfolding holders
holders-idle zero = refl
holders-idle (suc n) = omega (arith, holders-idle n)

length-replicate : (n : ℕ) (p : Pc) → length (replicate n p) ≡ n
length-replicate zero p = refl
length-replicate (suc n) p = ap suc (length-replicate n p)

Reach-Counts :
    {l : Limiter} {n : ℕ} {s : System} → l.in_flight ≡ 0 → Reach (start l n) s → Counts n s
Reach-Counts {n} e here = record {
  exact = omega (arith, e, holders-idle n);
  tasks_kept = length-replicate n idle;
}
Reach-Counts e (next r st) = Step-Counts st (Reach-Counts e r)

-- However the tasks interleave from a limiter with none in flight, the number in flight is the
-- number of tasks that hold a permit, and so at most the number of tasks: permits neither leak nor
-- are given back twice.
pub in_flight_exact :
    {l : Limiter} {n : ℕ} {s : System}
    → l.in_flight ≡ 0
    → Reach (start l n) s
    → (s.limiter.in_flight ≡ holders s.tasks) × (s.limiter.in_flight ≤ n)
in_flight_exact {s} e r =
    let c = Reach-Counts e r in
    (c.exact, omega (arith, c.exact, c.tasks_kept, holders-le-length s.tasks))

replicate-shift :
    (k : ℕ) (p : Pc) (ys : List Pc) → replicate k p ++ (p ∷ ys) ≡ replicate (suc k) p ++ ys
replicate-shift zero p ys = refl
replicate-shift (suc k) p ys = ap (λ zs. p ∷ zs) (replicate-shift k p ys)

module _ {l : Limiter} (free : l.in_flight ≡ 0) where
  all_pass :
      {s : System} (k m : ℕ)
      → Reach s (record { limiter = l; tasks = replicate k passed ++ replicate m idle })
      → (j : ℕ) × (j ≡ k + m) × Reach s (record { limiter = l; tasks = replicate j passed ++ [] })
  unfolding has_slot
  all_pass k zero r = (k, omega arith, r)
  all_pass {s} k (suc m) r =
      let st = turn (replicate k passed) (replicate m idle) (pass (ground arith)) in
      let moved =
        subst (λ ts. Reach s (record { limiter = l; tasks = ts }))
          (replicate-shift k passed (replicate m idle)) (next r st) in
      let (j, e, done) = all_pass (suc k) m moved in (j, omega arith, done)

all_take :
    {s : System} (l : Limiter) (k m : ℕ)
    → Reach s (record { limiter = l; tasks = replicate k holding ++ replicate m passed })
    → (t : System) × Reach s t × (t.limiter.in_flight ≡ l.in_flight + m)
unfolding take_permit
all_take l k zero r = (_, r, omega arith)
all_take {s} l k (suc m) r =
    let st = turn (replicate k holding) (replicate m passed) (take refl) in
    let moved =
      subst (λ ts. Reach s (record { limiter = take_permit l; tasks = ts }))
        (replicate-shift k holding (replicate m passed)) (next r st) in
    let (t, done, e) = all_take (take_permit l) (suc k) m moved in (t, done, omega arith)

-- The cap is not enforced by the limiter itself: from a limiter with none in flight, any number of
-- tasks can pass the test before the first of them is counted, and then all of them are in flight.
pub overshoot :
    (l : Limiter) (n : ℕ)
    → l.in_flight ≡ 0
    → (s : System) × Reach (start l n) s × (s.limiter.in_flight ≡ n)
overshoot l n free =
    let (j, e, r) = all_pass free 0 n here in
    let r' =
      subst (λ ts. Reach (start l n) (record { limiter = l; tasks = ts }))
        (append-nil (replicate j passed)) r in
    let (s, done, f) = all_take l 0 j r' in (s, done, omega arith)
