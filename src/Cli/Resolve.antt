-- ===== src/Cli/Resolve.antt =====
-- core/crates/xero-cli/src/resolve.rs, with the flags and settings that it reads (sync.rs and
-- config.rs). An `anyhow` error is its text.
pub mod Chunks
pub mod Windows
pub mod Scopes
use xero_visma_v.Base.{
  ℕ, zero, suc, ◌+◌, ◌-◌, min, max, ℤ, pos, ◌+ℤ◌, sub_ℕ, Bool, true, false, not, ◌||◌, Option, none,
  some, List, [], ◌∷◌, ◌++◌, Text, codes, text_eq, trim, any, is_nil, filter, find, Result, ok, err,
  ok_or, ◌>>=◌, ltb, leb, ◌==◌, if◌then◌else◌, map_option,
}
use xero_visma_v.Foreign.{Chrono}
use xero_visma_v.Entity.{
  EntityType, as_str, is_report, is_master, all, reports_default, master_data, open_status,
}
use xero_visma_v.Config.{or_default, SyncConfig}
use xero_visma_v.Sync.Mode.{
  SyncMode, incremental, open_sweep, rolling_full, master, backfill, reports,
}

pub record SyncArgs (Date : Type 0) : Type 0 where
  pub window_days : Option ℤ
  pub where_clause : Option Text
  pub no_window : Bool
  pub business_from : Option Date
  pub business_to : Option Date
  pub full : Bool
  pub full_with_window : Bool
  pub backfill : Option Text
  pub chunk_months : ℕ
  pub reports : Bool
  pub as_of : Option Date
  pub entity : List EntityType
  pub tenant : List Text
  pub dry_run : Bool
  pub local_dir : Text
  pub max_concurrent : Option ℕ

-- The first requested tenant that is not configured.
unfoldable pub unknown_tenant : List Text → List Text → Option Text
unknown_tenant configured requested = find (λ t. not (any (text_eq t) configured)) requested

unfoldable pub resolve_tenants : List Text → List Text → Result Text (List Text)
unfolding unknown_tenant
resolve_tenants [] [] =
    err (codes "no custom-connection tenants configured (set XERO_ORG_N_* / XERO_CC_*)")
resolve_tenants [] (t ∷ ts) = ok (t ∷ ts)
resolve_tenants (r ∷ rs) configured = elim (unknown_tenant configured (r ∷ rs)) [
  | some tenant ↦ err (codes "requested tenant not configured: " ++ tenant)
  | none ↦ ok (r ∷ rs)
]

-- `EntityType::all()` less the master data.
unfoldable pub transactional_entities : List EntityType
transactional_entities = filter (λ e. not (is_master e)) all

-- The trait `EntityScope`.
pub record EntityScope : Type 0 where
  pub default_entities : List EntityType
  pub allows_reports : Bool

abbrev pub backfill_scope : EntityScope
backfill_scope = record { default_entities = all; allows_reports = false }

unfoldable pub resolve_entities : List EntityType → EntityScope → Result Text (List EntityType)
resolve_entities [] scope = ok scope.default_entities
resolve_entities (e ∷ es) scope =
    if scope.allows_reports
    then elim (find (λ x. not (is_report x)) (e ∷ es)) [
      | some other ↦ err (codes "--reports only accepts report entities; got " ++ as_str other)
      | none ↦ ok (e ∷ es)
    ]
    else elim (find is_report (e ∷ es)) [
      | some report ↦
          err (codes "report entity " ++ as_str report ++ codes " is only valid with --reports")
      | none ↦ ok (e ∷ es)
    ]

-- `s.split_once(':')`
unfoldable pub split_colon : Text → Option (Text × Text)
split_colon [] = none
split_colon (c ∷ s) =
    let rest = split_colon s in
    if c == b':' then some ([], s) else map_option (λ (a, b). (c ∷ a, b)) rest

module _ (C : Chrono) where
  -- The window between `--business-from` and `--business-to`.
  unfoldable pub business_window :
      Option C.Date → Option C.Date → C.Date → Result Text (SyncMode C.Date × C.Date)
  business_window none to run_date = err (codes "--business-to requires --business-from")
  business_window (some from) to run_date =
      let last = or_default to run_date in
      if ltb (C.day last) (C.day from)
      then err (
          codes "--business-to ("
          ++ C.iso last
          ++ codes ") precedes --business-from ("
          ++ C.iso from
          ++ codes ")")
      else ok (rolling_full (sub_ℕ (C.day last) (C.day from) +ℤ pos 1), last)

  abbrev is_some {ℓ} : {A : Type ℓ} → Option A → Bool
  is_some none = false
  is_some (some a) = true

  -- The tests of `resolve_mode` after `--where`.
  unfoldable pub resolve_window :
      SyncArgs C.Date → C.Date → SyncConfig → Result Text (SyncMode C.Date × C.Date)
  unfolding business_window
  resolve_window args run_date cfg =
      if is_some args.business_from || is_some args.business_to
      then business_window args.business_from args.business_to run_date
      else if args.full_with_window
      then ok (rolling_full cfg.rolling_full_tight_days, run_date)
      else if args.full
      then ok (master, run_date)
      else if args.no_window
      then ok (open_sweep [], run_date)
      else ok (incremental, run_date)

  -- The mode with the date that anchors its window.
  unfoldable pub resolve_mode :
      SyncArgs C.Date → C.Date → SyncConfig → Result Text (SyncMode C.Date × C.Date)
  unfolding resolve_window
  resolve_mode args run_date cfg =
      if args.reports
      then ok (reports (or_default args.as_of run_date), run_date)
      else elim args.where_clause [
        | some w ↦ ok (open_sweep w, run_date)
        | none ↦ resolve_window args run_date cfg
      ]

  unfoldable pub mode_scope : SyncMode C.Date → EntityScope
  unfolding transactional_entities
  mode_scope (reports as_of) = record { default_entities = reports_default; allows_reports = true }
  mode_scope master = record { default_entities = master_data; allows_reports = false }
  mode_scope (open_sweep w) = record { default_entities = open_status; allows_reports = false }
  mode_scope (rolling_full days) = record {
    default_entities = transactional_entities;
    allows_reports = false;
  }
  mode_scope incremental = record { default_entities = all; allows_reports = false }
  mode_scope (backfill from to) = record { default_entities = all; allows_reports = false }

  unfoldable pub next_start : C.Date → ℕ → C.Date
  next_start cursor months = or_default (C.checked_add_months cursor (max months 1)) C.max_date

  -- The day before the next start, or `to` if that is earlier.
  unfoldable pub chunk_end : C.Date → C.Date → C.Date
  chunk_end next to =
      let last = or_default (C.checked_sub_days next 1) next in
      if leb (C.day last) (C.day to) then last else to

  -- The loop of `backfill_chunks`; a round starts on a later day than the one before it, so that as
  -- many rounds as there are days from `from` to `to`, and one, are enough.
  unfoldable pub chunks_from :
      ℕ → C.Date → C.Date → ℕ → List (C.Date × C.Date) → Option (List (C.Date × C.Date))
  unfolding next_start chunk_end
  chunks_from zero cursor to months chunks = none
  chunks_from (suc fuel) cursor to months chunks =
      let next = next_start cursor months in
      let rest = chunks_from fuel next to months (chunks ++ (cursor, chunk_end next to) ∷ []) in
      if leb (C.day cursor) (C.day to) then rest else some chunks

  unfoldable pub backfill_chunks : ℕ → C.Date → C.Date → ℕ → Option (List (C.Date × C.Date))
  unfolding chunks_from
  backfill_chunks fuel from to months = chunks_from fuel from to months []

  parse_end : Text → Text → Result Text C.Date
  parse_end name s =
      ok_or (C.parse_date (trim s)) (codes "invalid backfill " ++ name ++ codes " date: " ++ s)

  unfoldable pub parse_range : Text → Result Text (C.Date × C.Date)
  unfolding split_colon parse_end
  parse_range spec =
      ok_or (split_colon spec) (codes "--backfill must be FROM:TO (YYYY-MM-DD:YYYY-MM-DD)")
      >>= λ (from_text, to_text). parse_end (codes "FROM") from_text >>= λ from.
          parse_end (codes "TO") to_text >>= λ to.
          if ltb (C.day to) (C.day from)
          then err (
              codes "backfill TO ("
              ++ C.iso to
              ++ codes ") precedes FROM ("
              ++ C.iso from
              ++ codes ")")
          else ok (from, to)
