-- ===== src/Config.antt =====
-- core/crates/xero-common/src/config.rs: settings from the environment, given as a map.
pub mod Connections
pub mod Settings
pub mod App
use xero_visma_v.Base.{
  ℕ, ◌++◌, ◌∷◌, [], Option, none, some, Bool, Text, codes, Result, ok, err, ok_or, ◌>>=◌, ℤ, ◌==◌,
  starts_with, is_nil, trim, if◌then◌else◌,
}
use xero_visma_v.Base.BTree.{Pairs, get}
use xero_visma_v.Errors.{Error, config}

-- `vars.get(key).map(trim).filter(|v| !v.is_empty())`
unfoldable pub present : Option Text → Option Text
present none = none
present (some v) = let t = trim v in if is_nil t then none else some t

unfoldable pub value : Pairs → Text → Option Text
unfolding present get
value vars key = present (get key vars)

unfoldable pub required_from : Pairs → Text → Result Error Text
unfolding value
required_from vars key = ok_or (value vars key) (config (codes "missing required env var: " ++ key))

pub record GcsConfig : Type 0 where
  pub bucket : Text
  pub prefix : Text

abbrev pub default_prefix : Text
default_prefix = codes "raw/xero"

abbrev pub or_default {ℓ} : {A : Type ℓ} → Option A → A → A
or_default none d = d
or_default (some a) d = a

-- `trim_start_matches('/')`
unfoldable pub trim_slashes : Text → Text
trim_slashes [] = []
trim_slashes (c ∷ s) = let rest = trim_slashes s in if c == b'/' then rest else c ∷ s

-- Whether a prefix would put objects among the manifests.
unfoldable pub is_reserved : Text → Bool
unfolding trim_slashes
is_reserved prefix = starts_with (trim_slashes prefix) (codes "_manifests")

-- `GcsConfig::from_map`
unfoldable pub gcs_config : Pairs → Result Error GcsConfig
unfolding value required_from is_reserved
gcs_config vars = required_from vars (codes "GCS_BUCKET") >>= λ bucket.
    let prefix = or_default (value vars (codes "GCS_PREFIX")) default_prefix in
    if is_reserved prefix
    then err (
        config (
          codes "GCS_PREFIX must not start with '_manifests' (reserved manifest namespace): "
          ++ prefix))
    else ok (record { bucket = bucket; prefix = prefix })

pub record SyncConfig : Type 0 where
  pub window_days : ℤ
  pub rolling_full_tight_days : ℤ
  pub rolling_full_wide_days : ℤ
  pub max_concurrent : ℕ
