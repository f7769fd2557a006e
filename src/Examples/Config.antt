-- ===== src/Examples/Config.antt =====
-- The theorems on the configuration, at concrete inputs.
use xero_visma_v.Base.{
  ◌≡◌, refl, true, none, some, [], ◌∷◌, ◌++◌, Text, codes, show, parse_unsigned, trim, ok, All,
  arith, pos, negsuc,
}
use xero_visma_v.Base.BTree.{Pairs}
use xero_visma_v.Config.{SyncConfig, value}
use xero_visma_v.Config.Connections.{
  XeroCustomConnectionConfig, explicit_custom_connection, numbered_custom_connection,
  numbered_org_indices, has_tenant, custom_connection_configs, selected_custom_connection,
}
use xero_visma_v.Config.Settings.{sync_config}
use xero_visma_v.Config.Settings.Laws.{spelled, sync_config-spelled}
use xero_visma_v.Config.App.{
  require_custom_connection, custom_connection_org_index, AppConfig, app_of, app_config,
}
use xero_visma_v.Config.App.Laws.{Accepted, app_config-Accepted}
use xero_visma_v.Config.App.Selected.{HasClient, app_config-has_tenant, app_config-new_clients}
use xero_visma_v.Auth.{new_clients}

abbrev odd : SyncConfig
odd = record {
  window_days = negsuc 0;
  rolling_full_tight_days = pos 30;
  rolling_full_wide_days = pos 90;
  max_concurrent = 12;
}

sync_config-spelled_example : sync_config (spelled odd) ≡ ok odd
sync_config-spelled_example =
    sync_config-spelled odd (omega arith) (omega arith) (omega arith) (omega arith)

-- Two complete blocks, the second of which is selected, and a variable of neither.
abbrev block : Text → Text → Pairs → Pairs
block index tenant rest =
    (codes "XERO_ORG_" ++ (index ++ codes "_CLIENT_ID"), codes " i ")
    ∷ (codes "XERO_ORG_" ++ (index ++ codes "_CLIENT_SECRET"), codes "s")
    ∷ (codes "XERO_ORG_" ++ (index ++ codes "_TENANT_ID"), tenant)
    ∷ rest

abbrev pub two_blocks : Pairs
two_blocks =
    (codes "XERO_ORG_INDEX", codes "2")
    ∷ block (codes "1") (codes "t") (block (codes "2") (codes "u") [])

-- A number with a leading zero selects its block, but does not list it.
abbrev padded : Pairs
padded =
    (codes "XERO_ORG_INDEX", codes "01")
    ∷ block (codes "01") (codes "t") (block (codes "2") (codes "u") [])

abbrev connection : Text → XeroCustomConnectionConfig
connection tenant = record {
  tenant_name = none;
  tenant_id = tenant;
  client_id = codes "i";
  client_secret = codes "s";
}

abbrev pub two_connections : AppConfig
two_connections = record {
  log_level = codes "info";
  xero_cc_client_id = some (codes "i");
  xero_cc_client_secret = some (codes "s");
  xero_cc_tenant_id = some (codes "u");
  xero_cc_tenant_name = none;
  xero_cc_connections = connection (codes "t") ∷ connection (codes "u") ∷ [];
}

pub two_blocks-accepted : app_config two_blocks ≡ ok two_connections
unfolding app_config require_custom_connection custom_connection_org_index custom_connection_configs
    selected_custom_connection app_of value explicit_custom_connection numbered_custom_connection
    numbered_org_indices show parse_unsigned trim
two_blocks-accepted = refl

padded-accepted :
    app_config padded
    ≡ ok (record {
      log_level = codes "info";
      xero_cc_client_id = some (codes "i");
      xero_cc_client_secret = some (codes "s");
      xero_cc_tenant_id = some (codes "t");
      xero_cc_tenant_name = none;
      xero_cc_connections = connection (codes "u") ∷ [];
    })
unfolding app_config require_custom_connection custom_connection_org_index custom_connection_configs
    selected_custom_connection app_of value explicit_custom_connection numbered_custom_connection
    numbered_org_indices show parse_unsigned trim
padded-accepted = refl

app_config-Accepted_example : Accepted two_blocks two_connections
app_config-Accepted_example = app_config-Accepted two_blocks two_connections two_blocks-accepted

index_two : custom_connection_org_index two_blocks ≡ ok (show 2)
unfolding custom_connection_org_index value show parse_unsigned trim
index_two = refl

app_config-has_tenant_example :
    (t : Text) × (two_connections.xero_cc_tenant_id ≡ some t)
    × (has_tenant t two_connections.xero_cc_connections ≡ true)
app_config-has_tenant_example =
    app_config-has_tenant two_blocks two_connections 2 two_blocks-accepted index_two (omega arith)
      (omega arith)

app_config-new_clients_example :
    All
      (HasClient (new_clients two_connections.xero_cc_connections))
      two_connections.xero_cc_connections
app_config-new_clients_example =
    app_config-new_clients two_blocks two_connections two_blocks-accepted
