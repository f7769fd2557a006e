-- ===== src/Config/App/Laws.antt =====
-- What a configuration that is accepted contains.
use xero_visma_v.Base.{
  ℕ, ◌<◌, or_else, is_none, parse_unsigned, if◌then◌else◌, ltb, arith, Bool-cases, Option-cases,
  ◌≡◌, refl, sym, subst, false, Option, none, some, List, [], ◌∷◌, Text, codes, is_nil, ok, err,
  Result-cases, inl, inr,
}
use xero_visma_v.Base.BTree.{Pairs}
use xero_visma_v.Errors.{Error}
use xero_visma_v.Config.{value, or_default}
use xero_visma_v.Config.Connections.{
  XeroCustomConnectionConfig, u16_end, above_zero, org_label, explicit_label,
  explicit_custom_connection, numbered_custom_connection, custom_connection_configs,
  selected_custom_connection,
}
use xero_visma_v.Config.Connections.Laws.{
  IsConnectionsOf, custom_connection_configs-IsConnectionsOf,
}
use xero_visma_v.Config.Connections.Numbers.{connection_of-Holds}
use xero_visma_v.Config.Connections.Blocks.{
  is_set, IsExplicit, IsNumbered, AreOfBlocks, connection_of-none, IsGiven-is_set,
  connections-AreOfBlocks,
}
use xero_visma_v.Config.App.{
  require_present, first_present, require_custom_connection, custom_connection_org_index, AppConfig,
  app_of, app_config,
}

-- The fields of a configuration for the connections `cs`, of which `c` is selected.
pub record Selects (c : XeroCustomConnectionConfig) (cs : List XeroCustomConnectionConfig)
    (a : AppConfig) : Type 0 where
  pub client : a.xero_cc_client_id ≡ some c.client_id
  pub secret : a.xero_cc_client_secret ≡ some c.client_secret
  pub tenant : a.xero_cc_tenant_id ≡ some c.tenant_id
  pub name : a.xero_cc_tenant_name ≡ c.tenant_name
  pub some_connection : is_nil cs ≡ false

app_of-Selects :
    (vars : Pairs) (index : Text) (cs : List XeroCustomConnectionConfig)
    (o : Option XeroCustomConnectionConfig) (a : AppConfig)
    → app_of vars index cs o ≡ ok a
    → (c : XeroCustomConnectionConfig) × (o ≡ some c)
      × (a.xero_cc_connections ≡ cs)
      × Selects c cs a
unfolding app_of require_present
app_of-Selects vars index [] o a h = cc h
app_of-Selects vars index (k ∷ ks) none a h = cc h
app_of-Selects vars index (k ∷ ks) (some c) a h = (
  c,
  refl,
  cc h,
  record { client = cc h; secret = cc h; tenant = cc h; name = cc h; some_connection = refl },
)

-- What the steps of `from_map` produced.
pub record Steps (vars : Pairs) (a : AppConfig) : Type 0 where
  pub org_index : Text
  pub indexed : custom_connection_org_index vars ≡ ok org_index
  pub selected : XeroCustomConnectionConfig
  pub chosen : selected_custom_connection vars org_index ≡ ok (some selected)
  pub fields : Selects selected a.xero_cc_connections a
  pub listed : IsConnectionsOf vars a.xero_cc_connections

accepted :
    (vars : Pairs) (index : Text) (cs : List XeroCustomConnectionConfig)
    (o : Option XeroCustomConnectionConfig) (a : AppConfig)
    → custom_connection_org_index vars ≡ ok index
    → custom_connection_configs vars ≡ ok cs
    → selected_custom_connection vars index ≡ ok o
    → app_of vars index cs o ≡ ok a
    → Steps vars a
accepted vars index cs o a indexed read chosen h =
    let (c, is_some, same, fields) = app_of-Selects vars index cs o a h in
    record {
      org_index = index;
      indexed = indexed;
      selected = c;
      chosen = rw is_some at chosen;
      fields = subst (λ ks. Selects c ks a) (sym same) fields;
      listed = rw same (custom_connection_configs-IsConnectionsOf vars cs read);
    }

pub app_config-Steps : (vars : Pairs) (a : AppConfig) → app_config vars ≡ ok a → Steps vars a
unfolding app_config
app_config-Steps vars a h =
    elim (Result-cases (require_custom_connection (value vars (codes "XERO_CONNECTION_TYPE")))) [
      | inr (e, failed) ↦ cc (rw failed at h)
      | inl (u, custom) ↦ elim (Result-cases (custom_connection_org_index vars)) [
        | inr (e, failed) ↦ cc (rw (custom, failed) at h)
        | inl (index, indexed) ↦ elim (Result-cases (custom_connection_configs vars)) [
          | inr (e, failed) ↦ cc (rw (custom, indexed, failed) at h)
          | inl (cs, read) ↦ elim (Result-cases (selected_custom_connection vars index)) [
            | inr (e, failed) ↦ cc (rw (custom, indexed, read, failed) at h)
            | inl (o, chosen) ↦
                accepted vars index cs o a indexed read chosen
                  (rw (custom, indexed, read, chosen) at h)
          ]
        ]
      ]
    ]

-- The number of the organisation: the first of two variables that has a value, or else `1`.
abbrev pub org_index_of : Pairs → Text
org_index_of vars =
    or_default
      (or_else (value vars (codes "XERO_CUSTOM_CONNECTION_ORG_INDEX"))
        (value vars (codes "XERO_ORG_INDEX")))
      (codes "1")

-- The connection that is selected: that of `XERO_CC_*` if one of these variables has a value, and
-- else that of the chosen number.
abbrev pub IsSelected : Pairs → XeroCustomConnectionConfig → Type 0
IsSelected vars c =
    if is_set vars explicit_label (codes "TENANT_NAME")
    then IsExplicit vars c
    else IsNumbered vars (org_index_of vars) c

-- What is accepted, by the variables of the environment.
pub record Accepted (vars : Pairs) (a : AppConfig) : Type 0 where
  pub number : ℕ
  pub is_number : parse_unsigned u16_end (org_index_of vars) ≡ some number
  pub positive : 0 < number
  pub selected : XeroCustomConnectionConfig
  pub chosen : IsSelected vars selected
  pub fields : Selects selected a.xero_cc_connections a
  pub listed : AreOfBlocks vars a.xero_cc_connections

selected_custom_connection-IsSelected :
    (vars : Pairs) (c : XeroCustomConnectionConfig)
    → selected_custom_connection vars (org_index_of vars) ≡ ok (some c)
    → IsSelected vars c
unfolding selected_custom_connection explicit_custom_connection numbered_custom_connection
selected_custom_connection-IsSelected vars c h =
    elim (Result-cases (explicit_custom_connection vars)) [
      | inr (e, failed) ↦ cc (rw failed at h)
      | inl (none, absent) ↦
          rw (connection_of-none explicit_label (codes "TENANT_NAME") vars absent) (
            connection_of-Holds (org_label (org_index_of vars)) (codes "NAME") vars c
              (rw absent at h))
      | inl (some d, there) ↦
          let same : d ≡ c = cc (rw there at h) in
          let given = connection_of-Holds explicit_label (codes "TENANT_NAME") vars d there in
          rw (IsGiven-is_set vars explicit_label (codes "TENANT_NAME") d given) (rw same at given)
    ]

or_else-none : (o : Option Text) → or_else o none ≡ o
or_else-none none = refl
or_else-none (some v) = refl

-- What the check of a number `index` shows.
checked_index :
    (index read : Text) (e : Error)
    → (if is_none (above_zero (parse_unsigned u16_end index)) then err e else ok index) ≡ ok read
    → (read ≡ index) × (n : ℕ) × (parse_unsigned u16_end index ≡ some n) × (0 < n)
checked_index index read e h = elim (Option-cases (parse_unsigned u16_end index)) [
  | inl bad ↦ cc (rw bad at h)
  | inr (n, parsed) ↦ elim (Bool-cases (ltb 0 n)) [
    | inl positive ↦ (cc (rw (parsed, positive) at h), n, parsed, ground (arith, positive))
    | inr nought ↦ cc (rw (parsed, nought) at h)
  ]
]

index-number :
    (vars : Pairs) (index : Text)
    → custom_connection_org_index vars ≡ ok index
    → (index ≡ org_index_of vars)
      × (n : ℕ) × (parse_unsigned u16_end (org_index_of vars) ≡ some n)
      × (0 < n)
unfolding custom_connection_org_index first_present
index-number vars index h =
    let plain = or_else-none (value vars (codes "XERO_ORG_INDEX")) in
    subst
      (λ o.
        let i =
          or_default (or_else (value vars (codes "XERO_CUSTOM_CONNECTION_ORG_INDEX")) o)
            (codes "1") in
        (index ≡ i) × (n : ℕ) × (parse_unsigned u16_end i ≡ some n) × (0 < n))
      plain (checked_index _ index _ h)

-- Where the configuration is accepted, the number of the organisation is positive; the connection
-- of `XERO_CC_*`, if one of these variables has a value, or else that of the block under the number
-- as it is written, has an id, a secret and a tenant, and fills the four selected fields. There are
-- connections, no two with the same tenant; each of them is that of `XERO_CC_*` or of the block of
-- a number from 1 to 65535 in its shortest form; and each of these blocks, of which a variable has
-- a value, is complete, and its tenant is among those of the connections.
pub app_config-Accepted : (vars : Pairs) (a : AppConfig) → app_config vars ≡ ok a → Accepted vars a
app_config-Accepted vars a h =
    let r = app_config-Steps vars a h in
    let (same, n, parsed, positive) = index-number vars r.org_index r.indexed in
    record {
      number = n;
      is_number = parsed;
      positive = positive;
      selected = r.selected;
      chosen = selected_custom_connection-IsSelected vars r.selected (rw same at r.chosen);
      fields = r.fields;
      listed = connections-AreOfBlocks vars a.xero_cc_connections r.listed;
    }
