-- ===== src/Config/Connections.antt =====
-- The custom connections of core/crates/xero-common/src/config.rs: one under `XERO_CC_*`, and one
-- for each number under `XERO_ORG_N_*`.
pub mod Numbers
pub mod Laws
pub mod Blocks
use xero_visma_v.Base.{
  ℕ, ◌^◌, Bool, true, false, ◌&&◌, ◌||◌, Option, none, some, List, [], ◌∷◌, ◌++◌, Text, codes,
  text_eq, to_ascii_lowercase, trim, map, any, is_nil, show, parse_unsigned, Result, ok, err, ok_or,
  ◌>>=◌, strip_prefix, split_once, ltb, ◌==◌, if◌then◌else◌, and_then, is_none,
}
use xero_visma_v.Base.BTree.{Pairs}
use xero_visma_v.Errors.{Error, config}
use xero_visma_v.Config.{value, or_default}

pub record XeroCustomConnectionConfig : Type 0 where
  pub tenant_name : Option Text
  pub tenant_id : Text
  pub client_id : Text
  pub client_secret : Text

unfoldable pub client_or_org_required : Text → Option Text → Result Error Text
client_or_org_required label v = ok_or v (config (codes "missing required env var: " ++ label))

-- The body of the two functions below, on the values of the variables that `label` spells. A block
-- of which nothing is set is absent.
unfoldable pub block_of :
    (Text → Text)
    → Option Text
    → Option Text
    → Option Text
    → Option Text
    → Result Error (Option XeroCustomConnectionConfig)
unfolding client_or_org_required
block_of label client_id client_secret tenant_id tenant_name =
    if is_none client_id && is_none client_secret && is_none tenant_id && is_none tenant_name
    then ok none
    else client_or_org_required (label (codes "TENANT_ID")) tenant_id >>= (λ tenant.
      client_or_org_required (label (codes "CLIENT_ID")) client_id >>= (λ client.
        client_or_org_required (label (codes "CLIENT_SECRET")) client_secret >>= (λ secret. ok (
          some (record {
            tenant_name = tenant_name;
            tenant_id = tenant;
            client_id = client;
            client_secret = secret;
          })))))

-- `name` is the suffix of the variable for the tenant's name.
unfoldable pub connection_of :
    (Text → Text) → Text → Pairs → Result Error (Option XeroCustomConnectionConfig)
unfolding block_of
connection_of label name vars =
    block_of label (value vars (label (codes "CLIENT_ID")))
      (value vars (label (codes "CLIENT_SECRET"))) (value vars (label (codes "TENANT_ID")))
      (value vars (label name))

abbrev pub explicit_label : Text → Text
explicit_label suffix = codes "XERO_CC_" ++ suffix

unfoldable pub explicit_custom_connection : Pairs → Result Error (Option XeroCustomConnectionConfig)
unfolding connection_of
explicit_custom_connection vars = connection_of explicit_label (codes "TENANT_NAME") vars

abbrev pub org_label : Text → Text → Text
org_label org_index suffix = codes "XERO_ORG_" ++ (org_index ++ b'_' ∷ suffix)

unfoldable pub numbered_custom_connection :
    Pairs → Text → Result Error (Option XeroCustomConnectionConfig)
unfolding connection_of
numbered_custom_connection vars org_index = connection_of (org_label org_index) (codes "NAME") vars

unfoldable pub is_org_suffix : Text → Bool
is_org_suffix s =
    text_eq s (codes "CLIENT_ID")
    || text_eq s (codes "CLIENT_SECRET")
    || text_eq s (codes "TENANT_ID")
    || text_eq s (codes "NAME")

abbrev pub u16_end : ℕ
u16_end = 2 ^ 16

-- `n.filter(|n| *n > 0)`
abbrev pub above_zero : Option ℕ → Option ℕ
above_zero none = none
above_zero (some n) = if ltb 0 n then some n else none

-- What is between `XERO_ORG_` and the first `_` after it, with a known suffix.
unfoldable pub index_of_parts : Text × Text → Option ℕ
unfolding is_org_suffix
index_of_parts (index, suffix) = if is_org_suffix suffix then parse_unsigned u16_end index else none

-- The closures of the two adaptors: the number that a key belongs to.
unfoldable pub index_of_key : Text → Option ℕ
unfolding index_of_parts
index_of_key key = above_zero (
    and_then (strip_prefix (codes "XERO_ORG_") key)
      λ rest. and_then (split_once b'_' rest) index_of_parts)

-- `BTreeSet::insert`: the numbers rise.
unfoldable pub insert_index : ℕ → List ℕ → List ℕ
insert_index n [] = n ∷ []
insert_index n (m ∷ ms) =
    let rest = m ∷ insert_index n ms in
    if n == m then m ∷ ms else if ltb n m then n ∷ m ∷ ms else rest

abbrev pub insert_some : Option ℕ → List ℕ → List ℕ
insert_some none ns = ns
insert_some (some n) ns = insert_index n ns

unfoldable pub numbered_org_indices : Pairs → List ℕ
unfolding index_of_key insert_index
numbered_org_indices [] = []
numbered_org_indices ((key, v) ∷ rest) = insert_some (index_of_key key) (numbered_org_indices rest)

unfoldable pub has_tenant : Text → List XeroCustomConnectionConfig → Bool
has_tenant tenant cs = any (λ existing. text_eq existing.tenant_id tenant) cs

-- The `if` in the body of the loop.
unfoldable pub push_new :
    Option XeroCustomConnectionConfig
    → List XeroCustomConnectionConfig
    → List XeroCustomConnectionConfig
unfolding has_tenant
push_new none cs = cs
push_new (some c) cs = if has_tenant c.tenant_id cs then cs else cs ++ c ∷ []

unfoldable pub push_numbered :
    Pairs
    → List ℕ
    → List XeroCustomConnectionConfig
    → Result Error (List XeroCustomConnectionConfig)
unfolding push_new numbered_custom_connection
push_numbered vars [] cs = ok cs
push_numbered vars (n ∷ ns) cs =
    numbered_custom_connection vars (show n) >>= λ o. push_numbered vars ns (push_new o cs)

abbrev pub to_list {ℓ} : {A : Type ℓ} → Option A → List A
to_list none = []
to_list (some a) = a ∷ []

unfoldable pub custom_connection_configs : Pairs → Result Error (List XeroCustomConnectionConfig)
unfolding explicit_custom_connection push_numbered numbered_org_indices
custom_connection_configs vars = explicit_custom_connection vars >>= λ o.
    push_numbered vars (numbered_org_indices vars) (to_list o)

unfoldable pub selected_custom_connection :
    Pairs → Text → Result Error (Option XeroCustomConnectionConfig)
unfolding explicit_custom_connection numbered_custom_connection
selected_custom_connection vars org_index = explicit_custom_connection vars >>= λ o. elim o [
  | none ↦ numbered_custom_connection vars org_index
  | some c ↦ ok (some c)
]
