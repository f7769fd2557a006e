-- ===== src/Base/Perms.antt =====
-- Lists up to order.
use mathlib.Core.Path.{◌≡◌, refl}
use mathlib.Core.Logic.{inl, inr}
use mathlib.Core.Bool.{Bool, false, ◌&&◌, ◌||◌}
use mathlib.Core.List.{List, [], ◌∷◌, ◌++◌, Perm, perm_middle}
use mathlib.Core.List.Perm
use native.Mathlib.Omega.{arith}
use xero_visma_v.Base.Tests.{Bool-cases}
use xero_visma_v.Base.Lists.{filter}

module _ {ℓ} {A : Type ℓ} where
  pub filter-none : (p : A → Bool) → ((x : A) → p x ≡ false) → (xs : List A) → filter p xs ≡ []
  filter-none p never [] = refl
  filter-none p never (x ∷ xs) = rw (never x) (filter-none p never xs)

  -- Where a test is one of two that exclude each other, its items are those of the two.
  pub filter-split :
      (p q r : A → Bool)
      → ((x : A) → p x ≡ (q x || r x))
      → ((x : A) → (q x && r x) ≡ false)
      → (xs : List A) → Perm (filter p xs) (filter q xs ++ filter r xs)
  filter-split p q r either apart [] = Perm.nil
  filter-split p q r either apart (x ∷ xs) =
      let rest = filter-split p q r either apart xs in
      elim (Bool-cases (q x)) [
        | inl first ↦
            let not_second : r x ≡ false = ground (arith, apart x) in
            rw (either x, first, not_second) (Perm.cons x rest)
        | inr not_first ↦ elim (Bool-cases (r x)) [
          | inl second ↦
              rw (either x, not_first, second)
                (Perm.trans (Perm.cons x rest)
                  (Perm.symm (perm_middle (filter q xs) (filter r xs))))
          | inr neither ↦ rw (either x, not_first, neither) rest
        ]
      ]
