-- ===== src/Client/Records/Laws.antt =====
-- The windows of business dates: what a filter keeps, that windows in a row share the records out,
-- and that a query for inclusive dates asks for the same window.
use xero_visma_v.Base.{
  ◌≤◌, ◌<◌, ◌≡◌, refl, false, ◌&&◌, ◌||◌, Option, none, some, List, [], ◌∷◌, ok, leb, arith,
}
use xero_visma_v.Base.Perms.{filter-none, filter-split}
use mathlib.Core.List.{Perm}
use mathlib.Core.List.Perm
use xero_visma_v.Foreign.{Chrono, Json}
use xero_visma_v.Foreign.Laws.{IsCalendar}
use xero_visma_v.Entity.{EntityType}
use xero_visma_v.Client.Window.{DateWindow, inclusive_end_date}
use xero_visma_v.Client.Records.{
  record_business_date, in_window, filter_records_by_business_date_window,
}
use xero_visma_v.Client.Pages.Laws.{all_items}

module _ (J : Json) (C : Chrono) where
  abbrev pub window_of : C.Date → C.Date → DateWindow C.Date
  window_of a b = record { start = a; end_exclusive = b }

  -- The windows between dates in a row, of which `a` is the first.
  abbrev pub windows_from : C.Date → List C.Date → List (DateWindow C.Date)
  windows_from a [] = []
  windows_from a (b ∷ bs) = window_of a b ∷ windows_from b bs

  abbrev pub last_of : C.Date → List C.Date → C.Date
  last_of a [] = a
  last_of a (b ∷ bs) = last_of b bs

  abbrev pub Rises : C.Date → List C.Date → Type 0
  Rises a [] = Unit
  Rises a (b ∷ bs) = (C.day a < C.day b) × Rises b bs

  last_of-later : (a : C.Date) (bs : List C.Date) → Rises a bs → C.day a ≤ C.day (last_of a bs)
  last_of-later a [] r = omega arith
  last_of-later a (b ∷ bs) r = omega (arith, r.0, last_of-later b bs r.1)

  in_window-split :
      (a b c : C.Date) (o : Option C.Date)
      → C.day a ≤ C.day b
      → C.day b ≤ C.day c
      → (in_window J C (window_of a c) o
          ≡ (in_window J C (window_of a b) o || in_window J C (window_of b c) o))
        × ((in_window J C (window_of a b) o && in_window J C (window_of b c) o) ≡ false)
  unfolding in_window
  in_window-split a b c none ab bc = (refl, refl)
  in_window-split a b c (some d) ab bc = (ground arith, ground arith)

  in_window-empty : (a : C.Date) (o : Option C.Date) → in_window J C (window_of a a) o ≡ false
  unfolding in_window
  in_window-empty a none = refl
  in_window-empty a (some d) = ground arith

  -- For dates that rise, the records of the whole window are, up to order, those that the windows
  -- between the dates hold together: no record is lost, and none is in two windows.
  pub filter-windows_from :
      (e : EntityType) (records : List J.Value) (a : C.Date) (bs : List C.Date)
      → Rises a bs
      → Perm
          (filter_records_by_business_date_window J C e records (window_of a (last_of a bs)))
          (all_items (filter_records_by_business_date_window J C e records) (windows_from a bs))
  unfolding filter_records_by_business_date_window
  filter-windows_from e records a [] r =
      rw (filter-none _ (λ x. in_window-empty a (record_business_date J C e x)) records) Perm.nil
  filter-windows_from e records a (b ∷ bs) r =
      let later = last_of-later b bs r.1 in
      let date = record_business_date J C e in
      Perm.trans
        (filter-split (λ x. in_window J C (window_of a (last_of b bs)) (date x))
          (λ x. in_window J C (window_of a b) (date x))
          (λ x. in_window J C (window_of b (last_of b bs)) (date x))
          (λ x. (in_window-split a b (last_of b bs) (date x) (omega (arith, r.0)) later).0)
          (λ x. (in_window-split a b (last_of b bs) (date x) (omega (arith, r.0)) later).1) records)
        (Perm.append_left (filter_records_by_business_date_window J C e records (window_of a b))
          (filter-windows_from e records b bs r.1))

  -- For a calendar and a window that is not empty, there is an inclusive last date, and a date is
  -- in the window exactly if it is between the first date and that one.
  inclusive_end_date-in_window :
      (calendar : IsCalendar C) (window : DateWindow C.Date) (d : C.Date)
      → C.day window.start < C.day window.end_exclusive
      → (to : C.Date) × (inclusive_end_date C window ≡ ok to)
        × (in_window J C window (some d)
            ≡ (leb (C.day window.start) (C.day d) && leb (C.day d) (C.day to)))
  unfolding inclusive_end_date in_window
  inclusive_end_date-in_window calendar window d some_days =
      let (to, found, before) = calendar.sub_days_some window.end_exclusive 1 (omega arith) in
      (to, rw found refl, ground (arith, before))
