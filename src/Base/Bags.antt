-- ===== src/Base/Bags.antt =====
-- Lists of which the order is forgotten, and sums over them.
use Prim.Native.Nat.{ℕ, ◌+◌}
use mathlib.Core.Path.{◌≡◌, refl, ap, ap₂, ◌∙◌}
use mathlib.Core.Logic.{∥∥₁_elim}
use mathlib.Core.List.{List, [], ◌∷◌, ◌++◌, Perm, Permᴰ}
use mathlib.Core.Quot
use mathlib.Core.Quot.{Quot, Quot-set}
use native.Mathlib.Nat.{ℕ_set}
use native.Mathlib.Omega.{arith}

abbrev pub Bag {ℓ} : Type ℓ → Type ℓ
Bag A = Quot (Perm {A = A})

module _ {ℓ} {A : Type ℓ} where
  abbrev pub sum_of : (A → ℕ) → List A → ℕ
  sum_of f [] = 0
  sum_of f (x ∷ xs) = f x + sum_of f xs

  pub sum_of-append : (f : A → ℕ) (xs ys : List A) → sum_of f (xs ++ ys) ≡ sum_of f xs + sum_of f ys
  sum_of-append f [] ys = omega arith
  sum_of-append f (x ∷ xs) ys = omega (arith, sum_of-append f xs ys)

  sum_of_permuted : (f : A → ℕ) {xs ys : List A} → Permᴰ xs ys → sum_of f xs ≡ sum_of f ys
  sum_of_permuted f Permᴰ.nil = refl
  sum_of_permuted f (Permᴰ.cons same p) = ap₂ ◌+◌ (ap f same) (sum_of_permuted f p)
  sum_of_permuted f (Permᴰ.swap {a} {b} {l} first second) = omega (arith, ap f first, ap f second)
  sum_of_permuted f (Permᴰ.trans p q) = sum_of_permuted f p ∙ sum_of_permuted f q

  sum_of-Perm : (f : A → ℕ) (xs ys : List A) → Perm xs ys → sum_of f xs ≡ sum_of f ys
  sum_of-Perm f xs ys p = ∥∥₁_elim p (ℕ_set _ _) (sum_of_permuted f)

  abbrev pub of_list : List A → Bag A
  of_list = Quot.mk

  -- The sum over a bag, whatever the order.
  unfoldable total : (A → ℕ) → Bag A → ℕ
  total f = Quot.lift ℕ_set (sum_of f) (sum_of-Perm f)

  pub total_congr :
      (f : A → ℕ) (xs ys : List A) → of_list xs ≡ of_list ys → sum_of f xs ≡ sum_of f ys
  unfolding total
  total_congr f xs ys e = ap (total f) e
