-- ===== src/Examples/Gcs.antt =====
-- The theorems on keys, metadata and sinks, at concrete inputs.
use xero_visma_v.Base.{
  ℕ, ◌≡◌, refl, ◌≢◌, none, some, Option, List, [], ◌∷◌, ◌++◌, ◌==◌, if◌then◌else◌, Text, codes,
  trim, ok, err, All,
}
use xero_visma_v.Base.BTree.{Pairs}
use xero_visma_v.Config.{GcsConfig, gcs_config}
use xero_visma_v.Entity.{EntityType}
use xero_visma_v.Gcs.Keys.{object_key, report_object_key, manifest_key}
use xero_visma_v.Gcs.Keys.Laws.{object_key_injective}
use xero_visma_v.Gcs.Keys.Manifests.{keys-ne-manifest_key}
use xero_visma_v.Gcs.Meta.{SyncType, MetaArgs, ReportMetaArgs}
use xero_visma_v.Gcs.Sink.{Component, root_dir, normal, components, escapes, resolve_within_root}
use xero_visma_v.Gcs.Sink.Paths.{IsPlain, resolve_within_root_sound, default_dir-refuses}
use xero_visma_v.Gcs.Sink.Writes.{Disk, Bucket, put_raw}
use xero_visma_v.Gcs.Store.{find_object, on_contents, put_map, put_raw-put_map}
use xero_visma_v.Examples.Inputs.{days, days-HasIso}

object_key_injective_example :
    (EntityType.invoices ≡ EntityType.invoices) × (◌≡◌ {A = ℕ} 100 100) × (◌≡◌ {A = ℕ} 2 2)
object_key_injective_example =
    object_key_injective days days-HasIso (codes "raw/xero") (codes "t") (codes "ts")
      (codes "5f3c9a") EntityType.invoices EntityType.invoices 100 100 2 2 refl

abbrev variables : Pairs
variables = (codes "GCS_BUCKET", codes "b") ∷ []

abbrev bucket_config : GcsConfig
bucket_config = record { bucket = codes "b"; prefix = codes "raw/xero" }

variables-ok : gcs_config variables ≡ ok bucket_config
unfolding gcs_config trim
variables-ok = refl

keys-ne-manifest_key_example :
    (object_key days
        (codes "raw/xero")
        (codes "t")
        (codes "invoices")
        100
        (codes "ts")
        (codes "5f3c9a")
        1
      ≢ manifest_key days 100 (codes "5f3c9a2e"))
    × (report_object_key days
          (codes "raw/xero")
          (codes "t")
          (codes "invoices")
          100
          (codes "ts")
          (codes "5f3c9a")
          (codes "asof-1")
        ≢ manifest_key days 100 (codes "5f3c9a2e"))
keys-ne-manifest_key_example =
    keys-ne-manifest_key days variables bucket_config variables-ok (codes "t") (codes "invoices")
      (codes "ts") (codes "5f3c9a") (codes "asof-1") (codes "5f3c9a2e") 100 100 1

abbrev page_args : MetaArgs
page_args = record {
  tenant_id = codes "t";
  org_name = codes "Acme";
  endpoint = codes "invoices";
  sync_type = SyncType.backfill;
  modified_after = none;
  business_from = some (codes "2026-01-01");
  business_to = some (codes "2026-01-31");
  where_filter = none;
  page = 2;
  record_count = 100;
  http_status = 200;
  run_id = codes "5f3c9a2e";
  synced_at = codes "now";
}

abbrev report_args : ReportMetaArgs
report_args = record {
  tenant_id = codes "t";
  org_name = codes "Acme";
  endpoint = codes "report_balance_sheet";
  report = codes "report_balance_sheet";
  report_date = some (codes "2026-01-31");
  report_from = none;
  report_to = none;
  report_params = codes "date=2026-01-31";
  http_status = 200;
  record_count = 1;
  run_id = codes "5f3c9a2e";
  synced_at = codes "now";
}

abbrev out : List Component
out = root_dir ∷ normal (codes "out") ∷ []

out-accepts :
    resolve_within_root out (codes "a/../b")
    ≡ ok (root_dir ∷ normal (codes "out") ∷ normal (codes "b") ∷ [])
unfolding resolve_within_root
out-accepts = refl

resolve_within_root_sound_example :
    (rest : List Component) × (root_dir ∷ normal (codes "out") ∷ normal (codes "b") ∷ []
      ≡ out ++ rest)
    × All IsPlain (root_dir ∷ normal (codes "out") ∷ normal (codes "b") ∷ [])
resolve_within_root_sound_example =
    resolve_within_root_sound out (codes "a/../b")
      (root_dir ∷ normal (codes "out") ∷ normal (codes "b") ∷ []) out-accepts

default_dir-refuses_example :
    resolve_within_root (components (codes "./out")) (codes "raw/a.json")
    ≡ err (escapes (codes "raw/a.json"))
default_dir-refuses_example = default_dir-refuses (codes "raw/a.json")

-- The second upload is refused.
abbrev refuses : ℕ → Option Text
refuses n = if n == 1 then some (codes "503") else none

abbrev print : Pairs → Text
print m = codes "{}"

abbrev no_objects : Bucket
no_objects = record { objects = []; uploads = 0 }

abbrev no_files : Disk
no_files = record { files = []; calls = 0 }

-- The second upload, that of the sidecar, is refused.
put_raw-put_map_example :
    on_contents (
      put_raw
        (λ n. if n == 1 then some (codes "full") else none)
        (λ m. codes "{}")
        (codes "k")
        (codes "body")
        []
        (record { objects = []; uploads = 0 }))
    ≡ put_map
        (λ m. codes "{}")
        none
        (some (codes "full"))
        (codes "k")
        (codes "body")
        []
        (find_object [])
put_raw-put_map_example =
    put_raw-put_map (λ n. if n == 1 then some (codes "full") else none) (λ m. codes "{}")
      (codes "k") (codes "body") [] (record { objects = []; uploads = 0 })
