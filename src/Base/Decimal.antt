-- ===== src/Base/Decimal.antt =====
-- Decimal text: `to_string` of an unsigned number, `{:03}`, and `str::parse` of one.
use Prim.Native.Nat.{ℕ, zero, suc, ◌+◌, ◌-◌, ◌*◌, ◌/◌, ◌%◌, ◌≤◌, ◌<◌}
use mathlib.Core.Path.{◌≡◌, refl, ap, ◌∙◌}
use mathlib.Core.Logic.{◌≢◌, inl, inr}
use mathlib.Core.Bool.{◌||◌}
use mathlib.Core.List.{[], ◌∷◌, ◌++◌}
use mathlib.Core.Option.{Option, none, some}
use native.Mathlib.Omega.{arith}
use xero_visma_v.Base.Tests.{Bool-cases, ltb, leb, ◌==◌, if◌then◌else◌}
use xero_visma_v.Base.Lists.{length, replicate, All, All-append}
use xero_visma_v.Base.Strings.{Text}

-- The digits of `n` before `out`; a round for each digit, and `n + 1` rounds are enough.
show_loop : ℕ → ℕ → Text → Text
show_loop zero n out = out
show_loop (suc fuel) n out =
    let rest = show_loop fuel (n / 10) ((b'0' + n % 10) ∷ out) in
    if ltb n 10 then (b'0' + n % 10) ∷ out else rest

unfoldable pub show : ℕ → Text
unfolding show_loop
show n = show_loop (suc n) n []

-- `{:03}`
unfoldable pub show_padded : ℕ → Text
unfolding show
show_padded n = replicate (3 - length (show n)) b'0' ++ show n

-- The number that a run of digits stands for, after a number `a`.
pub read : ℕ → Text → ℕ
read a [] = a
read a (c ∷ s) = read (a * 10 + (c - b'0')) s

abbrev pub IsDigit : ℕ → Type 0
IsDigit c = (b'0' ≤ c) × (c ≤ b'9')

read-show_loop : (f n : ℕ) (out : Text) → n < f → read 0 (show_loop f n out) ≡ read n out
unfolding show_loop read
read-show_loop zero n out h = elim h [ ]
read-show_loop (suc f) n out h = ground (arith, read-show_loop f (n / 10) ((b'0' + n % 10) ∷ out))

-- What `to_string` prints reads back as the number.
pub read-show : (n : ℕ) → read 0 (show n) ≡ n
unfolding show read
read-show n = read-show_loop (suc n) n [] (omega arith)

read-replicate : (k : ℕ) (s : Text) → read 0 (replicate k b'0' ++ s) ≡ read 0 s
unfolding read
read-replicate zero s = refl
read-replicate (suc k) s = read-replicate k s

pub read-show_padded : (n : ℕ) → read 0 (show_padded n) ≡ n
unfolding show_padded
read-show_padded n = read-replicate (3 - length (show n)) (show n) ∙ read-show n

show_loop-IsDigit : (f n : ℕ) (out : Text) → All IsDigit out → All IsDigit (show_loop f n out)
unfolding show_loop
show_loop-IsDigit zero n out h = h
show_loop-IsDigit (suc f) n out h =
    ground (arith, show_loop-IsDigit f (n / 10) ((b'0' + n % 10) ∷ out))

pub show-IsDigit : (n : ℕ) → All IsDigit (show n)
unfolding show
show-IsDigit n = show_loop-IsDigit (suc n) n [] tt

replicate-IsDigit : (k : ℕ) → All IsDigit (replicate k b'0')
replicate-IsDigit zero = tt
replicate-IsDigit (suc k) = (omega arith, replicate-IsDigit k)

pub show_padded-IsDigit : (n : ℕ) → All IsDigit (show_padded n)
unfolding show_padded
show_padded-IsDigit n =
    All-append IsDigit (replicate (3 - length (show n)) b'0') (show n)
      (replicate-IsDigit (3 - length (show n))) (show-IsDigit n)

-- `parse` of an unsigned type whose values end before `bound`, after its digits' value `n` so far.
unfoldable pub parse_digits : ℕ → ℕ → Text → Option ℕ
parse_digits bound n [] = some n
parse_digits bound n (c ∷ s) =
    let next = n * 10 + (c - b'0') in
    if ltb c b'0' || ltb b'9' c
    then none
    else if leb bound next
    then none
    else parse_digits bound next s

-- No digits are an error, and one leading `+` is allowed.
unfoldable pub parse_unsigned : ℕ → Text → Option ℕ
unfolding parse_digits
parse_unsigned bound [] = none
parse_unsigned bound (c ∷ []) = parse_digits bound 0 (c ∷ [])
parse_unsigned bound (c ∷ d ∷ s) = parse_digits bound 0 (if c == b'+' then d ∷ s else c ∷ d ∷ s)

read_mono : (n : ℕ) (s : Text) → n ≤ read n s
unfolding read
read_mono n [] = omega arith
read_mono n (c ∷ s) = omega (arith, read_mono (n * 10 + (c - b'0')) s)

pub parse_digits-read :
    (bound n : ℕ) (s : Text)
    → All IsDigit s
    → read n s < bound
    → parse_digits bound n s ≡ some (read n s)
unfolding parse_digits read
parse_digits-read bound n [] d h = refl
parse_digits-read bound n (c ∷ s) d h = ground (
  arith,
  d.0,
  read_mono (n * 10 + (c - b'0')) s,
  parse_digits-read bound (n * 10 + (c - b'0')) s d.1 h,
)

parse_unsigned-read :
    (bound : ℕ) (s : Text)
    → s ≢ []
    → All IsDigit s
    → read 0 s < bound
    → parse_unsigned bound s ≡ some (read 0 s)
unfolding parse_unsigned
parse_unsigned-read bound [] some_digits d h = absurd (some_digits refl)
parse_unsigned-read bound (c ∷ []) some_digits d h = parse_digits-read bound 0 (c ∷ []) d h
parse_unsigned-read bound (c ∷ e ∷ s) some_digits d h =
    ground (arith, d.0, parse_digits-read bound 0 (c ∷ e ∷ s) d h)

show_loop-some : (fuel n : ℕ) (out : Text) → n < fuel → show_loop fuel n out ≢ []
unfolding show_loop
show_loop-some zero n out h = absurd (omega arith)
show_loop-some (suc fuel) n out h =
    ground (arith, show_loop-some fuel (n / 10) ((b'0' + n % 10) ∷ out))

pub show-some : (n : ℕ) → show n ≢ []
unfolding show
show-some n = show_loop-some (suc n) n [] (omega arith)

-- A number below the bound of its type survives `to_string` and `parse`.
pub parse_unsigned-show : (bound n : ℕ) → n < bound → parse_unsigned bound (show n) ≡ some n
parse_unsigned-show bound n h =
    rw (parse_unsigned-read bound (show n) (show-some n) (show-IsDigit n) (rw (read-show n) h))
      (ap some (read-show n))

parse_digits_below :
    (bound n : ℕ) (s : Text) (m : ℕ) → n < bound → parse_digits bound n s ≡ some m → m < bound
unfolding parse_digits
parse_digits_below bound n [] m fits h = let same : n ≡ m = cc h in rw (← same) fits
parse_digits_below bound n (c ∷ s) m fits h = elim (Bool-cases (ltb c b'0' || ltb b'9' c)) [
  | inl other ↦ cc (rw other at h)
  | inr digit ↦ elim (Bool-cases (leb bound (n * 10 + (c - b'0')))) [
    | inl large ↦ cc (rw (digit, large) at h)
    | inr small ↦
        parse_digits_below bound (n * 10 + (c - b'0')) s m (ground (arith, small))
          (rw (digit, small) at h)
  ]
]

-- What is parsed is a value of the type.
pub parse_unsigned_below :
    (bound : ℕ) (s : Text) (m : ℕ) → 0 < bound → parse_unsigned bound s ≡ some m → m < bound
unfolding parse_unsigned
parse_unsigned_below bound [] m fits h = cc h
parse_unsigned_below bound (c ∷ []) m fits h = parse_digits_below bound 0 (c ∷ []) m fits h
parse_unsigned_below bound (c ∷ d ∷ s) m fits h =
    parse_digits_below bound 0 (if c == b'+' then d ∷ s else c ∷ d ∷ s) m fits h
