-- ===== src/Sync/Run.antt =====
-- A whole run of core/crates/xero-sync/src/lib.rs: the fan-out of `run` over the outcomes of
-- `run_unit`.
use xero_visma_v.Base.{
  ℕ, ◌+◌, ◌*◌, ◌≡◌, ap, ap₂, ◌∙◌, Bool, ◌&&◌, some, List, [], ◌∷◌, map, Text, text_eq, Result, ok,
  err, if◌then◌else◌, arith, Bool-cases, inl, inr,
}
use xero_visma_v.Errors.{Error}
use xero_visma_v.Foreign.{Chrono, Json}
use xero_visma_v.Entity.{EntityType, as_str, from_str, entity_eq}
use xero_visma_v.Entity.Spelling.{from_str_iff}
use xero_visma_v.Client.Http.{Network, World}
use xero_visma_v.Gcs.Sink.Writes.{RawSink}
use xero_visma_v.Sync.Job.{EntityOutcome, Context, run_unit}
use xero_visma_v.Sync.Job.Outcomes.{run_unit_named}
use xero_visma_v.Sync.Pump.{UnitOfWork, units, Pump, Reaches}
use xero_visma_v.Sync.Pump.Laws.{count, count-append, Reaches-complete}

abbrev pub entity_or : Result Error EntityType → EntityType
entity_or (ok e) = e
entity_or (err x) = EntityType.accounts

-- The unit that an outcome names: its tenant, and the entity that its endpoint spells.
abbrev pub unit_of : EntityOutcome → UnitOfWork
unit_of o = (o.tenant, entity_or (from_str o.endpoint))

unit_of_named :
    (u : UnitOfWork) (o : EntityOutcome)
    → (o.tenant ≡ u.0) × (o.endpoint ≡ as_str u.1)
    → unit_of o ≡ u
unit_of_named (t, e) o h =
    ap₂ (λ x y. (x, y)) h.0 (ap entity_or ((from_str_iff o.endpoint e).1 h.1))

-- Whether a unit is the one of the tenant and the entity.
abbrev pub is_unit : Text → EntityType → UnitOfWork → Bool
is_unit tenant e (t, x) = text_eq t tenant && entity_eq x e

count-map-units :
    (tenant t : Text) (e : EntityType) (entities : List EntityType)
    → count (is_unit tenant e) (map (λ x. (t, x)) entities)
      ≡ (if text_eq t tenant then count (λ x. entity_eq x e) entities else 0)
count-map-units tenant t e [] = ground arith
count-map-units tenant t e (x ∷ xs) =
    let later = count-map-units tenant t e xs in
    elim (Bool-cases (text_eq t tenant)) [
      | inl same ↦ ground (arith, same, later)
      | inr other ↦ ground (arith, other, later)
    ]

count-units :
    (tenant : Text) (e : EntityType) (tenants : List Text) (entities : List EntityType)
    → count (is_unit tenant e) (units tenants entities)
      ≡ count (λ t. text_eq t tenant) tenants * count (λ x. entity_eq x e) entities
unfolding units
count-units tenant e [] entities = omega arith
count-units tenant e (t ∷ ts) entities =
    let later = count-units tenant e ts entities in
    let row = count-map-units tenant t e entities in
    count-append (is_unit tenant e) (map (λ x. (t, x)) entities) (units ts entities)
    ∙ ap₂ ◌+◌ row later
    ∙ elim (Bool-cases (text_eq t tenant)) [
      | inl same ↦ rw same (grind arith)
      | inr other ↦ rw other (omega arith)
    ]

module _ (J : Json) (C : Chrono) (N : Network) (S : RawSink) (cap : ℕ) (X : Context C) where
  -- What `run_unit` returns for the unit in some state of the client and the sink.
  abbrev pub Returns : UnitOfWork → EntityOutcome → Type 0
  Returns (t, e) o =
      (w : World) × (s : S.State) × (w1 : World) × (s1 : S.State) × (run_unit J C N S cap X t e w s
        ≡ some (o, w1, s1))

  Returns-unit_of : (u : UnitOfWork) (o : EntityOutcome) → Returns u o → unit_of o ≡ u
  Returns-unit_of (t, e) o (w, s, w1, s1, h) =
      unit_of_named (t, e) o (run_unit_named J C N S cap X t e w s o w1 s1 h)

  -- When a run has nothing in flight any more, whatever the order in which its units ended and the
  -- states that each of them met, it has exactly as many outcomes of a tenant and an entity as the
  -- tenant was given times, multiplied by how often the entity was; so each pair has one outcome
  -- where both lists have no repetition.
  pub run_outcomes :
      {s : Pump EntityOutcome} (max_concurrent : ℕ) (tenants : List Text)
      (entities : List EntityType) (tenant : Text) (e : EntityType)
      → Reaches Returns max_concurrent (units tenants entities) s
      → s.in_flight ≡ []
      → count (is_unit tenant e) (map unit_of s.outcomes)
        ≡ count (λ t. text_eq t tenant) tenants * count (λ x. entity_eq x e) entities
  run_outcomes max_concurrent tenants entities tenant e r ended =
      Reaches-complete Returns unit_of Returns-unit_of max_concurrent (units tenants entities)
        (is_unit tenant e) r ended
      ∙ count-units tenant e tenants entities
