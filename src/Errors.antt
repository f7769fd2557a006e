-- ===== src/Errors.antt =====
-- core/crates/xero-common/src/error.rs and core/crates/xero-gcs/src/error.rs: the errors, with the
-- text that each carries. The errors of foreign crates are known by their text alone.
use xero_visma_v.Base.{◌++◌, Text, codes}

pub data Error : Type 0 where
  auth state_store xero_api config sync serde http : Text → Error

-- `Display`
unfoldable pub error_text : Error → Text
error_text (auth s) = codes "auth: " ++ s
error_text (state_store s) = codes "state store: " ++ s
error_text (xero_api s) = codes "xero api: " ++ s
error_text (config s) = codes "config: " ++ s
error_text (sync s) = codes "sync: " ++ s
error_text (serde s) = codes "serialization: " ++ s
error_text (http s) = codes "http: " ++ s

pub data GcsError : Type 0 where
  upload io serde auth config : Text → GcsError

-- `Display`
unfoldable pub gcs_error_text : GcsError → Text
gcs_error_text (upload s) = codes "gcs upload failed: " ++ s
gcs_error_text (io s) = codes "io error: " ++ s
gcs_error_text (serde s) = codes "serde error: " ++ s
gcs_error_text (auth s) = codes "gcs auth failed: " ++ s
gcs_error_text (config s) = codes "gcs config error: " ++ s
