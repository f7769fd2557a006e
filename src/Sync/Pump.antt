-- ===== src/Sync/Pump.antt =====
-- The fan-out of `SyncJob::run` of core/crates/xero-sync/src/lib.rs: (tenant, entity) units of which
-- at most `concurrency` are in flight, and any one of them may end next.
pub mod Laws
pub mod Order
use xero_visma_v.Base.{ℕ, ◌<◌, min, max, List, [], ◌∷◌, ◌++◌, map, Text, length, ltb, if◌then◌else◌}
use xero_visma_v.Entity.{EntityType}

-- `max_concurrent.clamp(1, MAX_CONCURRENCY)`
unfoldable pub clamped : ℕ → ℕ
clamped max_concurrent = min (max max_concurrent 1) 6

abbrev pub UnitOfWork : Type 0
UnitOfWork = Text × EntityType

-- `tenants.iter().flat_map(|t| entities.iter().map(move |e| (t, e)))`
unfoldable pub units : List Text → List EntityType → List UnitOfWork
units [] entities = []
units (t ∷ ts) entities = map (λ e. (t, e)) entities ++ units ts entities

-- `pending` are the units from `next` on; `O` is the type of outcomes.
pub record Pump {ℓ} (O : Type ℓ) : Type ℓ where
  pub pending : List UnitOfWork
  pub in_flight : List UnitOfWork
  pub outcomes : List O

module _ {ℓ} {O : Type ℓ} where
  -- The first loop, which fills the pump.
  unfoldable pub prime : ℕ → List UnitOfWork → List UnitOfWork → Pump O
  prime concurrency in_flight [] = record { pending = []; in_flight = in_flight; outcomes = [] }
  prime concurrency in_flight (u ∷ us) =
      let filled = prime concurrency (in_flight ++ u ∷ []) us in
      if ltb (length in_flight) concurrency
      then filled
      else record { pending = u ∷ us; in_flight = in_flight; outcomes = [] }

  -- The body of the second loop, with the units that are left in flight.
  unfoldable pub on_outcome : List UnitOfWork → O → List UnitOfWork → List O → Pump O
  on_outcome left o [] outcomes = record {
    pending = [];
    in_flight = left;
    outcomes = outcomes ++ o ∷ [];
  }
  on_outcome left o (u ∷ us) outcomes = record {
    pending = us;
    in_flight = left ++ u ∷ [];
    outcomes = outcomes ++ o ∷ [];
  }

  module _ {κ} (Yields : UnitOfWork → O → Type κ) where
    -- One unit in flight ends with one of its outcomes.
    pub data Step : Pump O → Pump O → Type (ℓ ⊔ κ) where
      ends :
          {pending : List UnitOfWork} {outcomes : List O} (before : List UnitOfWork)
          (u : UnitOfWork) (after : List UnitOfWork) (o : O)
          → Yields u o
          → Step
              (record { pending = pending; in_flight = before ++ u ∷ after; outcomes = outcomes })
              (on_outcome (before ++ after) o pending outcomes)

    -- The states that a run over `us` may pass through.
    pub data Reaches (max_concurrent : ℕ) (us : List UnitOfWork) : Pump O → Type (ℓ ⊔ κ) where
      primed : Reaches max_concurrent us (prime (clamped max_concurrent) [] us)
      step : {s t : Pump O} → Reaches max_concurrent us s → Step s t → Reaches max_concurrent us t
