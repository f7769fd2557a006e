-- ===== src/Examples/Health.antt =====
-- The theorem on the health check, at concrete inputs.
use xero_visma_v.Base.{◌+◌, ◌*◌, some, List, [], ◌∷◌, Text, codes}
use xero_visma_v.Base.BTree.{Pairs}
use xero_visma_v.Auth.{CustomConnectionClient, second}
use xero_visma_v.Examples.Config.{two_blocks}

abbrev vars : Pairs
vars = (codes "GCS_BUCKET", codes "b") ∷ two_blocks

abbrev connected : Text → Text × CustomConnectionClient
connected tenant = (
  tenant,
  record {
    client_id = codes "i";
    client_secret = codes "s";
    tenant_id = tenant;
    cached_token = some (record {
      access_token = codes "access";
      refresh_token = [];
      expires_at = 5 + 1800 * second;
      scopes = codes "a" ∷ codes "b" ∷ [];
      tenant_id = tenant;
    });
    requests = 1;
  },
)

abbrev both : List (Text × CustomConnectionClient)
both = connected (codes "t") ∷ connected (codes "u") ∷ []
