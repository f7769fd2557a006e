-- ===== src/Foreign/Laws.antt =====
-- What the theorems assume of chrono: the documented order and arithmetic of dates.
use xero_visma_v.Base.{ℕ, ◌+◌, ◌≤◌, ◌<◌, ◌≡◌, ◌≢◌, some, All}
use xero_visma_v.Foreign.{Chrono}

pub record IsCalendar (C : Chrono) : Type 0 where
  pub day_injective : (d e : C.Date) → C.day d ≡ C.day e → d ≡ e
  pub months_later :
      (d e : C.Date) (m : ℕ) → 1 ≤ m → C.checked_add_months d m ≡ some e → C.day d < C.day e
  pub sub_days_some :
      (d : C.Date) (k : ℕ)
      → k ≤ C.day d
      → (e : C.Date) × (C.checked_sub_days d k ≡ some e) × (C.day e + k ≡ C.day d)

-- `%Y-%m-%d` has no slash, and tells dates apart.
pub record HasIso (C : Chrono) : Type 0 where
  pub iso_injective : (d e : C.Date) → C.iso d ≡ C.iso e → d ≡ e
  pub iso_slash_free : (d : C.Date) → All (λ c. c ≢ b'/') (C.iso d)

-- `NaiveDate::MAX` is the last date.
pub record HasLast (C : Chrono) : Type 0 where
  pub last : (d : C.Date) → C.day d ≤ C.day C.max_date
