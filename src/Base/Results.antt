-- ===== src/Base/Results.antt =====
-- `Result` with its error type, `?` as a bind, and `ok_or`.
use mathlib.Core.Path.{◌≡◌, refl}
use mathlib.Core.Logic.{◌⊎◌, inl, inr}
use mathlib.Core.Option.{Option, none, some}

pub data Result {ℓ κ} (E : Type ℓ) (V : Type κ) : Type (ℓ ⊔ κ) where
  err : E → Result E V
  ok : V → Result E V

-- `o.ok_or(problem)`
abbrev pub ok_or {ℓ κ} : {E : Type ℓ} {V : Type κ} → Option V → E → Result E V
ok_or (some v) problem = ok v
ok_or none problem = err problem

module _ {ℓ κ μ} {E : Type ℓ} {V : Type κ} {W : Type μ} where
  -- `let v = first?; then_with(v)`
  infixl 5 ◌>>=◌
  abbrev pub ◌>>=◌ : Result E V → (V → Result E W) → Result E W
  (err problem) >>= then_with = err problem
  (ok v) >>= then_with = then_with v

pub Result-cases {ℓ κ} :
    {E : Type ℓ} {V : Type κ} (r : Result E V)
    → ((v : V) × (r ≡ ok v)) ⊎ ((problem : E) × (r ≡ err problem))
Result-cases (ok v) = inl (v, refl)
Result-cases (err problem) = inr (problem, refl)
