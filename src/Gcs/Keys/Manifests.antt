-- ===== src/Gcs/Keys/Manifests.antt =====
-- Objects and manifests have separate keys, if the configuration accepts the prefix.
use xero_visma_v.Base.{
  ℕ, ◌≡◌, refl, ◌≢◌, true, false, [], ◌∷◌, ◌++◌, append_assoc, Text, codes, All, starts_with, ok,
  arith,
}
use xero_visma_v.Base.BTree.{Pairs}
use xero_visma_v.Foreign.{Chrono}
use xero_visma_v.Config.{is_reserved, GcsConfig, gcs_config}
use xero_visma_v.Gcs.Keys.{object_key, report_object_key, manifest_key}

-- A text that goes on with a slash where a slash-free text does begins with that text.
starts_before_slash :
    (s m x y : Text)
    → All (λ c. c ≢ b'/') m
    → s ++ (b'/' ∷ x) ≡ m ++ (b'/' ∷ y)
    → starts_with s m ≡ true
starts_before_slash s [] x y h e = refl
starts_before_slash [] (d ∷ m) x y h e = absurd (h.0 (cc))
starts_before_slash (c ∷ s) (d ∷ m) x y h e =
    let rest : s ++ (b'/' ∷ x) ≡ m ++ (b'/' ∷ y) = cc in
    let first : c ≡ d = cc in ground (arith, starts_before_slash s m x y h.1 rest)

reserved_of_start : (s : Text) → starts_with s (codes "_manifests") ≡ true → is_reserved s ≡ true
unfolding is_reserved
reserved_of_start [] h = cc
reserved_of_start (c ∷ s) h = ground (arith)

gcs_config-prefix :
    (vars : Pairs) (cfg : GcsConfig) → gcs_config vars ≡ ok cfg → is_reserved cfg.prefix ≡ false
unfolding gcs_config
gcs_config-prefix vars cfg h = ground arith

module _ (C : Chrono) (vars : Pairs) (cfg : GcsConfig) (accepted : gcs_config vars ≡ ok cfg) where
  not_before_slash : (x y : Text) → cfg.prefix ++ (b'/' ∷ x) ≢ codes "_manifests" ++ (b'/' ∷ y)
  not_before_slash x y h =
      let starts = starts_before_slash cfg.prefix (codes "_manifests") x y (omega arith) h in
      cc (reserved_of_start cfg.prefix starts, gcs_config-prefix vars cfg accepted)

  -- Under a prefix that the configuration accepts, neither a page nor a report has the key of a
  -- manifest, whatever the tenant, the run and the dates.
  pub keys-ne-manifest_key :
      (tenant endpoint ts run_id period id : Text) (d e : C.Date) (p : ℕ)
      → (object_key C cfg.prefix tenant endpoint d ts run_id p ≢ manifest_key C e id)
        × (report_object_key C cfg.prefix tenant endpoint d ts run_id period ≢ manifest_key C e id)
  unfolding object_key report_object_key manifest_key
  keys-ne-manifest_key tenant endpoint ts run_id period id d e p = (
    λ h. not_before_slash _ _ (simp append_assoc at h),
    λ h. not_before_slash _ _ (simp append_assoc at h),
  )
