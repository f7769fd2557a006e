-- ===== src/Gcs/Keys.antt =====
-- core/crates/xero-gcs/src/key.rs and the keys of manifests and sidecars.
pub mod Laws
pub mod Manifests
use xero_visma_v.Base.{
  ℕ, ◌++◌, ◌∷◌, map, Text, codes, show_padded, is_ascii_alphanumeric, to_ascii_lowercase,
  if◌then◌else◌,
}
use xero_visma_v.Foreign.{Chrono}

abbrev pub api_version : Text
api_version = codes "2.0"

unfoldable pub sanitize_char : ℕ → ℕ
unfolding is_ascii_alphanumeric to_ascii_lowercase
sanitize_char c = if is_ascii_alphanumeric c then to_ascii_lowercase c else b'_'

unfoldable pub sanitize_segment : Text → Text
unfolding sanitize_char
sanitize_segment s = map sanitize_char s

abbrev pub manifest_root : Text
manifest_root = codes "_manifests/xero"

-- `{object_key}.meta.json`
unfoldable pub sidecar_key : Text → Text
sidecar_key key = key ++ codes ".meta.json"

module _ (C : Chrono) where
  -- `{prefix}/{tenant}/2.0/{endpoint}/{date}/{ts}_{run_id}_p{page:03}.json`
  unfoldable pub object_key : Text → Text → Text → C.Date → Text → Text → ℕ → Text
  unfolding sanitize_segment show_padded
  object_key prefix tenant endpoint run_date ts run_id_short page =
      prefix
      ++ codes "/"
      ++ tenant
      ++ codes "/"
      ++ api_version
      ++ codes "/"
      ++ (sanitize_segment endpoint
          ++ codes "/"
          ++ (C.iso run_date
              ++ codes "/"
              ++ (ts
                  ++ codes "_"
                  ++ sanitize_segment run_id_short
                  ++ codes "_p"
                  ++ (show_padded page ++ codes ".json"))))

  -- `{prefix}/{tenant}/2.0/{endpoint}/{date}/{ts}_{run_id}__{period}.json`
  unfoldable pub report_object_key : Text → Text → Text → C.Date → Text → Text → Text → Text
  unfolding sanitize_segment
  report_object_key prefix tenant endpoint run_date ts run_id_short period_key =
      prefix
      ++ codes "/"
      ++ tenant
      ++ codes "/"
      ++ api_version
      ++ codes "/"
      ++ (sanitize_segment endpoint
          ++ codes "/"
          ++ (C.iso run_date
              ++ codes "/"
              ++ (ts
                  ++ codes "_"
                  ++ sanitize_segment run_id_short
                  ++ codes "__"
                  ++ (sanitize_segment period_key ++ codes ".json"))))

  -- `_manifests/xero/{date}/{run_id}.json`
  unfoldable pub manifest_key : C.Date → Text → Text
  manifest_key run_date run_id =
      manifest_root ++ codes "/" ++ C.iso run_date ++ codes "/" ++ run_id ++ codes ".json"
