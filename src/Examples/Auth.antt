-- ===== src/Examples/Auth.antt =====
-- The theorems on tokens, at concrete inputs.
use xero_visma_v.Base.{pos, none, some, List, [], ◌∷◌, show, codes}
use xero_visma_v.Config.Connections.{XeroCustomConnectionConfig}
use xero_visma_v.Auth.{
  TokenServer, body, new_client, new_clients, fetch_token, fetch_token_for_tenant,
}
use xero_visma_v.Auth.Tenants.{AllKept, fetch_token_for_tenant-AllKept, new_clients-IsOwn}
use xero_visma_v.Auth.Cache.{IsServed, fetch_token-IsServed}

abbrev pub server : TokenServer
server = record {
  exchange = λ id secret n. body 200 (codes "access") (pos 1800) (some (codes "a b"));
  clock = λ n. 5;
  status_text = show;
}

abbrev first : XeroCustomConnectionConfig
first = record {
  tenant_name = none;
  client_id = codes "i";
  client_secret = codes "s";
  tenant_id = codes "t";
}

abbrev connections : List XeroCustomConnectionConfig
connections =
    first
    ∷ record {
      tenant_name = none;
      client_id = codes "j";
      client_secret = codes "s";
      tenant_id = codes "u";
    }
    ∷ []

fetch_token_for_tenant-AllKept_example :
    AllKept server
      (codes "u")
      (fetch_token_for_tenant server 5 (codes "u") (new_clients connections))
fetch_token_for_tenant-AllKept_example =
    fetch_token_for_tenant-AllKept server 5 (codes "u") (new_clients connections)
      (new_clients-IsOwn connections)

fetch_token-IsServed_example :
    IsServed server 5 (new_client first) (fetch_token server 5 (new_client first))
fetch_token-IsServed_example = fetch_token-IsServed server 5 (new_client first)
