-- ===== src/Config/Settings/Laws.antt =====
-- The numbers of a `SyncConfig` read back.
use xero_visma_v.Base.{
  ◌^◌, ◌<◌, ◌≡◌, refl, none, some, [], ◌∷◌, Text, codes, ℤ, show, show_ℤ, IsI64, parse_i64-show_ℤ,
  parse_unsigned-show, show-some, Result, ok, is_nil, All, ◌≢◌, if◌then◌else◌, pos, negsuc,
}
use xero_visma_v.Base.BTree.{Pairs, get}
use xero_visma_v.Base.Trim.{IsInk, trim-IsInk, show-IsInk, show_ℤ-IsInk}
use xero_visma_v.Config.{value, present, SyncConfig}
use xero_visma_v.Config.Settings.{read_i64, read_usize, parsed_or, sync_config}

-- The environment that spells the settings out.
abbrev pub spelled : SyncConfig → Pairs
spelled c =
    (codes "SYNC_WINDOW_DAYS", show_ℤ c.window_days)
    ∷ (codes "SYNC_ROLLING_FULL_TIGHT_DAYS", show_ℤ c.rolling_full_tight_days)
    ∷ (codes "SYNC_ROLLING_FULL_WIDE_DAYS", show_ℤ c.rolling_full_wide_days)
    ∷ (codes "SYNC_MAX_CONCURRENT", show c.max_concurrent)
    ∷ []

present-IsInk : (s : Text) → s ≢ [] → All IsInk s → present (some s) ≡ some s
unfolding present
present-IsInk s some_text ink = rw (trim-IsInk s ink) (filled s some_text)
  where
    filled : (s : Text) → s ≢ [] → (if is_nil s then none else some s) ≡ some s
    filled [] h = absurd (h refl)
    filled (c ∷ s) h = refl

show_ℤ-some : (z : ℤ) → show_ℤ z ≢ []
unfolding show_ℤ
show_ℤ-some (pos n) = show-some n
show_ℤ-some (negsuc n) = λ e. cc

parsed_or-value {ℓ} :
    {A : Type ℓ} (parse : Text → Result Text A) (vars : Pairs) (key raw : Text) (default a : A)
    → get key vars ≡ some raw
    → raw ≢ []
    → All IsInk raw
    → parse raw ≡ ok a
    → parsed_or parse vars key default ≡ ok a
unfolding parsed_or value
parsed_or-value parse vars key raw default a got filled ink good =
    let found : value vars key ≡ some raw = rw (got, value) (present-IsInk raw filled ink) in
    rw (found, good, parsed_or) refl

parsed_or-days :
    (vars : Pairs) (key : Text) (default z : ℤ)
    → IsI64 z
    → get key vars ≡ some (show_ℤ z)
    → parsed_or read_i64 vars key default ≡ ok z
unfolding read_i64
parsed_or-days vars key default z fits got =
    parsed_or-value read_i64 vars key (show_ℤ z) default z got (show_ℤ-some z) (show_ℤ-IsInk z)
      (rw (parse_i64-show_ℤ z fits) refl)

-- Settings whose numbers fit their types, written into the environment, are read back unchanged.
pub sync_config-spelled :
    (c : SyncConfig)
    → IsI64 c.window_days
    → IsI64 c.rolling_full_tight_days
    → IsI64 c.rolling_full_wide_days
    → c.max_concurrent < 2 ^ 64
    → sync_config (spelled c) ≡ ok c
unfolding sync_config read_usize get
sync_config-spelled c window tight wide few =
    let vars = spelled c in
    let vars = spelled c in
    rw
      (
        parsed_or-days vars (codes "SYNC_WINDOW_DAYS") (pos 3) c.window_days window refl,
        parsed_or-days vars (codes "SYNC_ROLLING_FULL_TIGHT_DAYS") (pos 30)
            c.rolling_full_tight_days tight refl,
        parsed_or-days vars (codes "SYNC_ROLLING_FULL_WIDE_DAYS") (pos 90) c.rolling_full_wide_days
            wide refl,
        parsed_or-value read_usize vars (codes "SYNC_MAX_CONCURRENT") (show c.max_concurrent) 6
            c.max_concurrent refl (show-some c.max_concurrent) (show-IsInk c.max_concurrent)
            (rw (parse_unsigned-show (2 ^ 64) c.max_concurrent few) refl),
      )
      refl
