-- ===== src/Base/Trim.antt =====
-- `str::trim` on text without blanks.
use Prim.Native.Nat.{ℕ}
use mathlib.Core.Path.{◌≡◌, refl}
use mathlib.Core.Bool.{false}
use mathlib.Core.List.{[], ◌∷◌, reverse, reverse-cons, reverse-reverse}
use native.Mathlib.Omega.{arith}
use xero_visma_v.Base.Lists.{All, All-append, All-weaken}
use xero_visma_v.Base.Strings.{Text, is_whitespace, trim_start, trim}
use xero_visma_v.Base.Decimal.{IsDigit, show, show-IsDigit}
use xero_visma_v.Base.Int.{ℤ, pos, negsuc, show_ℤ}

abbrev pub IsInk : ℕ → Type 0
IsInk c = is_whitespace c ≡ false

trim_start-IsInk : (s : Text) → All IsInk s → trim_start s ≡ s
unfolding trim_start
trim_start-IsInk [] h = refl
trim_start-IsInk (c ∷ s) h = rw h.0 refl

reverse-IsInk : (s : Text) → All IsInk s → All IsInk (reverse s)
reverse-IsInk [] h = tt
reverse-IsInk (c ∷ s) h =
    rw (reverse-cons c s) (All-append IsInk (reverse s) (c ∷ []) (reverse-IsInk s h.1) (h.0, tt))

pub trim-IsInk : (s : Text) → All IsInk s → trim s ≡ s
unfolding trim
trim-IsInk s h =
    rw (trim_start-IsInk s h, trim_start-IsInk (reverse s) (reverse-IsInk s h)) (reverse-reverse s)

digit-IsInk : (c : ℕ) → IsDigit c → IsInk c
unfolding is_whitespace
digit-IsInk c h = ground arith

pub show-IsInk : (n : ℕ) → All IsInk (show n)
show-IsInk n = All-weaken IsDigit IsInk digit-IsInk (show n) (show-IsDigit n)

pub show_ℤ-IsInk : (z : ℤ) → All IsInk (show_ℤ z)
unfolding show_ℤ is_whitespace
show_ℤ-IsInk (pos n) = show-IsInk n
show_ℤ-IsInk (negsuc n) = (refl, show-IsInk _)
