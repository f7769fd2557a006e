-- ===== src/Config/Settings.antt =====
-- The numbers of `SyncConfig` in core/crates/xero-common/src/config.rs.
pub mod Laws
use xero_visma_v.Base.{
  ℕ, ◌+◌, ◌-◌, ◌*◌, ◌^◌, Bool, true, false, ◌||◌, Option, none, some, [], ◌∷◌, ◌++◌, Text, codes, ℤ,
  pos, parse_i64, parse_unsigned, Result, ok, err, ok_or, ◌>>=◌, leb, ltb, ◌==◌, if◌then◌else◌,
}
use xero_visma_v.Base.BTree.{Pairs}
use xero_visma_v.Errors.{Error, config}
use xero_visma_v.Config.{value, SyncConfig}

-- Why `parse` refuses digits that follow the number `n`: the first character that is none, or the
-- first digit that leaves the type.
unfoldable digits_error : ℕ → Text → ℕ → Text → Text
digits_error bound overflow n [] = codes "invalid digit found in string"
digits_error bound overflow n (c ∷ s) =
    let next = n * 10 + (c - b'0') in
    let rest = digits_error bound overflow next s in
    if ltb c b'0' || ltb b'9' c
    then codes "invalid digit found in string"
    else if leb bound next
    then overflow
    else rest

-- `Display` of `ParseIntError`
unfoldable unsigned_error : ℕ → Text → Text
unfolding digits_error
unsigned_error bound [] = codes "cannot parse integer from empty string"
unsigned_error bound (c ∷ s) =
    digits_error bound (codes "number too large to fit in target type") 0
      (if c == b'+' then s else c ∷ s)

unfoldable signed_error : Text → Text
unfolding digits_error unsigned_error
signed_error [] = codes "cannot parse integer from empty string"
signed_error (c ∷ s) =
    if c == b'-'
    then digits_error (2 ^ 63 + 1) (codes "number too small to fit in target type") 0 s
    else unsigned_error (2 ^ 63) (c ∷ s)

-- `str::parse::<i64>`, and `str::parse::<usize>` on a 64-bit machine, with their errors.
unfoldable pub read_i64 : Text → Result Text ℤ
unfolding parse_i64 signed_error unsigned_error digits_error
read_i64 s = ok_or (parse_i64 s) (signed_error s)

unfoldable pub read_usize : Text → Result Text ℕ
unfolding parse_unsigned unsigned_error digits_error
read_usize s = ok_or (parse_unsigned (2 ^ 64) s) (unsigned_error (2 ^ 64) s)

abbrev invalid {ℓ} : {A : Type ℓ} → Text → Result Text A → Result Error A
invalid key (ok a) = ok a
invalid key (err e) = err (config (codes "invalid " ++ key ++ codes ": " ++ e))

unfoldable pub parsed_or {ℓ} :
    {A : Type ℓ} → (Text → Result Text A) → Pairs → Text → A → Result Error A
parsed_or parse vars key default = elim (value vars key) [
  | some raw ↦ invalid key (parse raw)
  | none ↦ ok default
]

-- `SyncConfig::from_map`
unfoldable pub sync_config : Pairs → Result Error SyncConfig
unfolding parsed_or
sync_config vars = parsed_or read_i64 vars (codes "SYNC_WINDOW_DAYS") (pos 3) >>= (λ window_days.
    parsed_or read_i64 vars (codes "SYNC_ROLLING_FULL_TIGHT_DAYS") (pos 30) >>= (λ tight.
      parsed_or read_i64 vars (codes "SYNC_ROLLING_FULL_WIDE_DAYS") (pos 90) >>= (λ wide.
        parsed_or read_usize vars (codes "SYNC_MAX_CONCURRENT") 6 >>= λ max_concurrent. ok (record {
          window_days = window_days;
          rolling_full_tight_days = tight;
          rolling_full_wide_days = wide;
          max_concurrent = max_concurrent;
        }))))
