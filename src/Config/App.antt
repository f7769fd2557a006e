-- ===== src/Config/App.antt =====
-- `AppConfig` of core/crates/xero-common/src/config.rs: the connections of the process, and the one
-- that is selected.
pub mod Laws
pub mod Selected
use xero_visma_v.Base.{
  ℕ, Bool, true, false, ◌||◌, Option, none, some, List, [], ◌∷◌, ◌++◌, Text, codes, text_eq, map,
  to_ascii_lowercase, trim, is_nil, parse_unsigned, Result, ok, err, ◌>>=◌, ltb, if◌then◌else◌,
  map_option, and_then, or_else, is_none,
}
use xero_visma_v.Base.BTree.{Pairs}
use xero_visma_v.Errors.{Error, config}
use xero_visma_v.Config.{value, or_default}
use xero_visma_v.Config.Connections.{
  XeroCustomConnectionConfig, u16_end, above_zero, org_label, explicit_label,
  custom_connection_configs, selected_custom_connection,
}

unfoldable pub require_present : Text → Option Text → Result Error (Unit {0})
require_present label none = err (config (codes "missing required env var: " ++ label))
require_present label (some v) = ok tt

unfoldable pub is_custom_alias : Text → Bool
is_custom_alias v =
    text_eq v (codes "custom")
    || text_eq v (codes "custom_connection")
    || text_eq v (codes "client_credentials")
    || text_eq v (codes "cc")

unfoldable pub require_custom_connection : Option Text → Result Error (Unit {0})
unfolding is_custom_alias
require_custom_connection none = ok tt
require_custom_connection (some raw) =
    let v = map to_ascii_lowercase (trim raw) in
    if is_custom_alias v
    then ok tt
    else err (
        config (
          codes "unsupported XERO_CONNECTION_TYPE: "
          ++ v
          ++ codes " (custom-connection is mandatory)"))

unfoldable pub first_present : Pairs → List Text → Option Text
first_present vars [] = none
first_present vars (key ∷ keys) = or_else (value vars key) (first_present vars keys)

unfoldable pub custom_connection_org_index : Pairs → Result Error Text
unfolding first_present
custom_connection_org_index vars =
    let index =
      or_default
        (first_present vars
          (codes "XERO_CUSTOM_CONNECTION_ORG_INDEX" ∷ codes "XERO_ORG_INDEX" ∷ []))
        (codes "1") in
    if is_none (above_zero (parse_unsigned u16_end index))
    then err (
        config
          (codes "XERO_CUSTOM_CONNECTION_ORG_INDEX must be a positive integer, got: " ++ index))
    else ok index

pub record AppConfig : Type 0 where
  pub log_level : Text
  pub xero_cc_client_id : Option Text
  pub xero_cc_client_secret : Option Text
  pub xero_cc_tenant_id : Option Text
  pub xero_cc_tenant_name : Option Text
  pub xero_cc_connections : List XeroCustomConnectionConfig

-- `{explicit} or {numbered}`
abbrev pub either_label : Text → Text → Text
either_label org_index suffix = explicit_label suffix ++ codes " or " ++ org_label org_index suffix

-- What follows the reading of the connections.
unfoldable pub app_of :
    Pairs
    → Text
    → List XeroCustomConnectionConfig
    → Option XeroCustomConnectionConfig
    → Result Error AppConfig
unfolding require_present
app_of vars org_index connections selected =
    let client_id = map_option (λ c. c.client_id) selected in
    let client_secret = map_option (λ c. c.client_secret) selected in
    let tenant_id = map_option (λ c. c.tenant_id) selected in
    if is_nil connections
    then err (
        config (codes "missing custom connection credentials: configure XERO_CC_* or XERO_ORG_N_*"))
    else require_present (either_label org_index (codes "CLIENT_ID")) client_id >>= (λ u.
      require_present (either_label org_index (codes "CLIENT_SECRET")) client_secret >>= (λ u.
        require_present (either_label org_index (codes "TENANT_ID")) tenant_id >>= (λ u.
          ok (record {
            log_level = or_default (value vars (codes "RUST_LOG")) (codes "info");
            xero_cc_client_id = client_id;
            xero_cc_client_secret = client_secret;
            xero_cc_tenant_id = tenant_id;
            xero_cc_tenant_name = and_then selected (λ c. c.tenant_name);
            xero_cc_connections = connections;
          }))))

-- `AppConfig::from_map`
unfoldable pub app_config : Pairs → Result Error AppConfig
unfolding require_custom_connection custom_connection_org_index app_of
app_config vars = require_custom_connection (value vars (codes "XERO_CONNECTION_TYPE")) >>= (λ u.
    custom_connection_org_index vars >>= (λ org_index.
      custom_connection_configs vars >>= (λ connections.
        selected_custom_connection vars org_index
        >>= (λ selected. app_of vars org_index connections selected))))
