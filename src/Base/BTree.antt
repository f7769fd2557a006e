-- ===== src/Base/BTree.antt =====
-- `BTreeMap<String, String>` as its entries in the order of their keys.
use mathlib.Core.Path.{◌≡◌, refl}
use mathlib.Core.Bool.{Bool, true, false, ◌&&◌}
use mathlib.Core.List.{List, [], ◌∷◌}
use mathlib.Core.Option.{Option, none, some}
use native.Mathlib.Omega.{arith}
use xero_visma_v.Base.Tests.{if◌then◌else◌}
use xero_visma_v.Base.Strings.{Text, text_eq, text_leb, text_eq_iff}

abbrev pub Pairs : Type 0
Pairs = List (Text × Text)

unfoldable pub insert : Text → Text → Pairs → Pairs
insert k v [] = (k, v) ∷ []
insert k v ((j, w) ∷ rest) =
    let later = (j, w) ∷ insert k v rest in
    if text_eq k j then (k, v) ∷ rest else if text_leb k j then (k, v) ∷ (j, w) ∷ rest else later

unfoldable pub get : Text → Pairs → Option Text
get k [] = none
get k ((j, w) ∷ rest) = if text_eq j k then some w else get k rest

pub get-insert :
    (k j v : Text) (m : Pairs) → get j (insert k v m) ≡ (if text_eq k j then some v else get j m)
unfolding insert get
get-insert k j v [] = refl
get-insert k j v ((i, w) ∷ m) =
    ground (arith, text_eq_iff k i, text_eq_iff k j, text_eq_iff i j, get-insert k j v m)

-- The keys rise strictly, so a map has one representation.
abbrev pub below : Text → Pairs → Bool
below k [] = true
below k ((j, w) ∷ rest) = text_leb k j && (if text_eq k j then false else true)

abbrev pub is_sorted : Pairs → Bool
is_sorted [] = true
is_sorted ((k, v) ∷ rest) = below k rest && is_sorted rest

text_leb_total : (s t : Text) → text_leb s t ≡ false → text_leb t s ≡ true
text_leb_total [] t h = cc
text_leb_total (c ∷ s) [] h = refl
text_leb_total (c ∷ s) (d ∷ t) h = ground (arith, text_leb_total s t)

pub insert-is_sorted :
    (k v : Text) (m : Pairs) → is_sorted m ≡ true → is_sorted (insert k v m) ≡ true
unfolding insert
insert-is_sorted k v [] h = refl
insert-is_sorted k v ((j, w) ∷ []) h =
    ground (arith, text_eq_iff k j, text_eq_iff j k, text_leb_total k j)
insert-is_sorted k v ((j, w) ∷ (i, u) ∷ m) h = ground (
  arith,
  text_eq_iff k j,
  text_eq_iff j k,
  text_eq_iff k i,
  text_leb_total k j,
  insert-is_sorted k v ((i, u) ∷ m),
)
