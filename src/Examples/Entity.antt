-- ===== src/Examples/Entity.antt =====
-- The theorems on entities and their query parameters, at concrete inputs.
use xero_visma_v.Base.{◌≡◌, ◌↔◌, [], ◌∷◌, codes, ok}
use xero_visma_v.Base.BTree.{Pairs}
use xero_visma_v.Entity.{EntityType, from_str, as_str}
use xero_visma_v.Entity.Spelling.{from_str_iff}

from_str_iff_example :
    (from_str (codes "invoices") ≡ ok EntityType.invoices)
    ↔ (codes "invoices" ≡ as_str EntityType.invoices)
from_str_iff_example = from_str_iff (codes "invoices") EntityType.invoices

abbrev overrides : Pairs
overrides = (codes "date", codes "2026-01-31") ∷ []
