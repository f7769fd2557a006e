-- ===== src/Entity/Spelling.antt =====
-- The spellings of the entities: what parses to what, and which paths coincide.
use xero_visma_v.Base.{
  ◌≡◌, refl, sym, ap, ◌∙◌, ◌↔◌, List, [], ◌∷◌, ◌++◌, map, Bool, Text, ok, text_eq, text_eq→eq,
  text_eq_iff, All, every→All, arith,
}
use xero_visma_v.Entity.{EntityType, from_str, as_str, xero_path, first_arm, arms, all, all_reports}

IsArm : Text × EntityType → Type 0
IsArm (t, e) = t ≡ as_str e

is_arm : Text × EntityType → Bool
is_arm (t, e) = text_eq t (as_str e)

arms-IsArm : All IsArm arms
unfolding IsArm arms is_arm as_str
arms-IsArm = every→All IsArm is_arm (λ (t, e) h. text_eq→eq t (as_str e) h) arms refl

from_str-as_str : (e : EntityType) → from_str (as_str e) ≡ ok e
unfolding from_str as_str
from_str-as_str EntityType.accounts = refl
from_str-as_str _ = refl

first_arm-eq-ok :
    (s : Text) (l : List (Text × EntityType)) (e : EntityType)
    → All IsArm l
    → first_arm s l ≡ ok e
    → s ≡ as_str e
unfolding IsArm first_arm
first_arm-eq-ok s [] e h q = cc
first_arm-eq-ok s ((t, f) ∷ l) e (p, h) q = ground (arith, text_eq_iff s t, first_arm-eq-ok s l e h)

-- A key parses to an entity exactly when it is that entity's own spelling: printing and parsing
-- are inverse to each other, and no second spelling is accepted.
pub from_str_iff : (s : Text) (e : EntityType) → (from_str s ≡ ok e) ↔ (s ≡ as_str e)
unfolding from_str
from_str_iff s e = (first_arm-eq-ok s arms e arms-IsArm, λ q. ap from_str q ∙ from_str-as_str e)

pub as_str_injective : (a b : EntityType) → as_str a ≡ as_str b → a ≡ b
as_str_injective a b h = cc (from_str-as_str a, from_str-as_str b, ap from_str h)

-- Bills are read from the path of invoices; every other entity has a path of its own.
unfoldable pub path_owner : EntityType → EntityType
path_owner EntityType.bills = EntityType.invoices
path_owner e = e

path_arms : List (Text × EntityType)
unfolding all all_reports xero_path
path_arms =
    map (λ e. (xero_path e, e)) (all ++ all_reports ++ EntityType.employees ∷ EntityType.bills ∷ [])

first_arm-xero_path : (e : EntityType) → first_arm (xero_path e) path_arms ≡ ok (path_owner e)
unfolding path_arms first_arm xero_path path_owner
first_arm-xero_path EntityType.accounts = refl
first_arm-xero_path _ = refl

xero_path-path_owner : (e : EntityType) → xero_path e ≡ xero_path (path_owner e)
unfolding xero_path path_owner
xero_path-path_owner EntityType.bills = refl
xero_path-path_owner _ = refl

-- Two entities share an API path just when they are the same, or are invoices and bills.
pub xero_path_iff : (a b : EntityType) → (xero_path a ≡ xero_path b) ↔ (path_owner a ≡ path_owner b)
xero_path_iff a b = (
  λ h. cc (first_arm-xero_path a, first_arm-xero_path b, ap (λ p. first_arm p path_arms) h),
  λ h. xero_path-path_owner a ∙ ap xero_path h ∙ sym (xero_path-path_owner b),
)
