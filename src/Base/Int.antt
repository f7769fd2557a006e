-- ===== src/Base/Int.antt =====
-- Signed numbers (`i64`) over the native ones; `negsuc n` is -(n + 1).
use Prim.Native.Nat.{ℕ, zero, suc, ◌+◌, ◌-◌, ◌^◌, ◌<◌}
use mathlib.Core.Path.{◌≡◌, refl, ap}
use mathlib.Core.Logic.{◌≢◌}
use native.Mathlib.Omega.{arith}
use xero_visma_v.Base.Lists.{All}
use mathlib.Core.Bool.{Bool}
use mathlib.Core.List.{◌∷◌}
use xero_visma_v.Base.Strings.{Text}
use mathlib.Core.Option.{Option, none, some}
use mathlib.Core.List.{[]}
use xero_visma_v.Base.Decimal.{
  show, read, IsDigit, read-show, show-IsDigit, show-some, parse_digits, parse_digits-read,
  parse_unsigned, parse_unsigned-show,
}
use xero_visma_v.Base.Tests.{leb, ◌==◌, if◌then◌else◌}

pub data ℤ : Type 0 where
  pos : ℕ → ℤ
  negsuc : ℕ → ℤ

abbrev pub pos_part : ℤ → ℕ
pos_part (pos n) = n
pos_part (negsuc n) = 0

abbrev pub neg_part : ℤ → ℕ
neg_part (pos n) = 0
neg_part (negsuc n) = suc n

abbrev pub sub_ℕ : ℕ → ℕ → ℤ
sub_ℕ a b = if leb b a then pos (a - b) else negsuc (b - a - 1)

infixl 65 ◌+ℤ◌ ◌-ℤ◌
abbrev pub ◌+ℤ◌ : ℤ → ℤ → ℤ
a +ℤ b = sub_ℕ (pos_part a + pos_part b) (neg_part a + neg_part b)

abbrev pub ◌-ℤ◌ : ℤ → ℤ → ℤ
a -ℤ b = sub_ℕ (pos_part a + neg_part b) (neg_part a + pos_part b)

abbrev pub leb_ℤ : ℤ → ℤ → Bool
leb_ℤ a b = leb (pos_part a + neg_part b) (pos_part b + neg_part a)

abbrev pub max_ℤ : ℤ → ℤ → ℤ
max_ℤ a b = if leb_ℤ a b then b else a

-- `to_string` of a signed number.
unfoldable pub show_ℤ : ℤ → Text
show_ℤ (pos n) = show n
show_ℤ (negsuc n) = b'-' ∷ show (suc n)

negated : Option ℕ → Option ℤ
negated none = none
negated (some zero) = some (pos 0)
negated (some (suc n)) = some (negsuc n)

positive : Option ℕ → Option ℤ
positive none = none
positive (some n) = some (pos n)

-- `parse` of the digits after a minus sign: no digits are an error.
parse_negative : Text → Option ℤ
unfolding parse_digits negated
parse_negative [] = none
parse_negative (c ∷ s) = negated (parse_digits (2 ^ 63 + 1) 0 (c ∷ s))

-- `str::parse::<i64>`
unfoldable pub parse_i64 : Text → Option ℤ
unfolding parse_negative parse_unsigned positive
parse_i64 [] = none
parse_i64 (c ∷ s) =
    if c == b'-' then parse_negative s else positive (parse_unsigned (2 ^ 63) (c ∷ s))

-- The numbers of an `i64`.
abbrev pub IsI64 : ℤ → Type 0
IsI64 (pos n) = n < 2 ^ 63
IsI64 (negsuc n) = n < 2 ^ 63

parse_i64-digits :
    (s : Text) → s ≢ [] → All IsDigit s → parse_i64 s ≡ positive (parse_unsigned (2 ^ 63) s)
unfolding parse_i64
parse_i64-digits [] some_digits d = absurd (some_digits refl)
parse_i64-digits (c ∷ s) some_digits d = ground (arith, d.0)

parse_negative-digits :
    (s : Text)
    → s ≢ []
    → All IsDigit s
    → read 0 s < 2 ^ 63 + 1
    → parse_negative s ≡ negated (some (read 0 s))
unfolding parse_negative
parse_negative-digits [] some_digits d h = absurd (some_digits refl)
parse_negative-digits (c ∷ s) some_digits d h =
    ap negated (parse_digits-read (2 ^ 63 + 1) 0 (c ∷ s) d h)

parse_i64-negative :
    (n : ℕ)
    → parse_negative (show (suc n)) ≡ negated (some (read 0 (show (suc n))))
    → parse_i64 (b'-' ∷ show (suc n)) ≡ some (negsuc n)
unfolding parse_i64 negated
parse_i64-negative n h = rw (h, read-show (suc n)) refl

-- An `i64` survives `to_string` and `parse`.
pub parse_i64-show_ℤ : (z : ℤ) → IsI64 z → parse_i64 (show_ℤ z) ≡ some z
unfolding positive show_ℤ
parse_i64-show_ℤ (pos n) h =
    rw (parse_i64-digits (show n) (show-some n) (show-IsDigit n), parse_unsigned-show (2 ^ 63) n h)
      refl
parse_i64-show_ℤ (negsuc n) h = parse_i64-negative n (
    parse_negative-digits (show (suc n)) (show-some (suc n)) (show-IsDigit (suc n))
      (omega (arith, read-show (suc n))))
