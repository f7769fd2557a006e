-- ===== src/Base/Lists.antt =====
-- Lists measured by native numbers, a Boolean filter, and predicates that hold of every item.
use Prim.Native.Nat.{ℕ, zero, suc, ◌+◌}
use mathlib.Core.Path.{◌≡◌, refl, ap₂}
use mathlib.Core.Bool.{Bool, true, false, ◌&&◌, ◌||◌}
use mathlib.Core.List.{List, [], ◌∷◌, ◌++◌}
use mathlib.Core.Option.{Option, none, some}
use native.Mathlib.Omega.{arith}
use mathlib.Core.Logic.{◌≢◌}
use xero_visma_v.Base.Tests.{if◌then◌else◌, &&_split}

module _ {ℓ} {A : Type ℓ} where
  abbrev pub length : List A → ℕ
  length [] = 0
  length (x ∷ xs) = suc (length xs)

  abbrev pub replicate : ℕ → A → List A
  replicate zero a = []
  replicate (suc n) a = a ∷ replicate n a

  abbrev pub any : (A → Bool) → List A → Bool
  any p [] = false
  any p (x ∷ xs) = p x || any p xs

  abbrev pub every : (A → Bool) → List A → Bool
  every p [] = true
  every p (x ∷ xs) = p x && every p xs

  abbrev pub is_nil : List A → Bool
  is_nil [] = true
  is_nil (x ∷ xs) = false

  -- `iter().filter(p)`
  abbrev pub filter : (A → Bool) → List A → List A
  filter p [] = []
  filter p (x ∷ xs) = if p x then x ∷ filter p xs else filter p xs

  -- `iter().find(p)`
  abbrev pub find : (A → Bool) → List A → Option A
  find p [] = none
  find p (x ∷ xs) = if p x then some x else find p xs

  abbrev pub All {κ} : (A → Type κ) → List A → Type κ
  All P [] = Unit
  All P (x ∷ xs) = P x × All P xs

  pub length-append : (xs ys : List A) → length (xs ++ ys) ≡ length xs + length ys
  length-append [] ys = omega arith
  length-append (x ∷ xs) ys = omega (arith, length-append xs ys)

  pub All-append {κ} : (P : A → Type κ) (xs ys : List A) → All P xs → All P ys → All P (xs ++ ys)
  All-append P [] ys _ hy = hy
  All-append P (x ∷ xs) ys (px, hx) hy = (px, All-append P xs ys hx hy)

  pub append_cancel_left : (xs : List A) {ys zs : List A} → xs ++ ys ≡ xs ++ zs → ys ≡ zs
  append_cancel_left [] h = h
  append_cancel_left (x ∷ xs) h = append_cancel_left xs (cc h)

  pub every→All {κ} :
      (P : A → Type κ) (p : A → Bool)
      → ((x : A) → p x ≡ true → P x)
      → (xs : List A) → every p xs ≡ true
      → All P xs
  every→All P p sound [] h = tt
  every→All P p sound (x ∷ xs) h =
      let (now, later) = &&_split (p x) (every p xs) h in
      (sound x now, every→All P p sound xs later)

  -- Where a separator stands in neither front part, two equal texts split alike.
  pub split_unique :
      (c : A) (xs ys us vs : List A)
      → All (λ x. x ≢ c) xs
      → All (λ x. x ≢ c) ys
      → xs ++ (c ∷ us) ≡ ys ++ (c ∷ vs)
      → (xs ≡ ys) × (us ≡ vs)
  split_unique c [] [] us vs hx hy e = (refl, cc)
  split_unique c [] (y ∷ ys) us vs hx hy e = absurd (hy.0 (cc))
  split_unique c (x ∷ xs) [] us vs hx hy e = absurd (hx.0 (cc))
  split_unique c (x ∷ xs) (y ∷ ys) us vs hx hy e =
      let later : xs ++ (c ∷ us) ≡ ys ++ (c ∷ vs) = cc in
      let first : x ≡ y = cc in
      let (p, q) = split_unique c xs ys us vs hx.1 hy.1 later in (ap₂ ◌∷◌ first p, q)

  pub All-weaken {κ μ} :
      (P : A → Type κ) (Q : A → Type μ)
      → ((x : A) → P x → Q x)
      → (xs : List A) → All P xs
      → All Q xs
  All-weaken P Q f [] h = tt
  All-weaken P Q f (x ∷ xs) h = (f x h.0, All-weaken P Q f xs h.1)

  pub any-append : (p : A → Bool) (xs ys : List A) → any p (xs ++ ys) ≡ (any p xs || any p ys)
  any-append p [] ys = refl
  any-append p (x ∷ xs) ys = ground (arith, any-append p xs ys)
