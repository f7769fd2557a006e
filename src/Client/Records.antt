-- ===== src/Client/Records.antt =====
-- The dates of a record in core/crates/xero-client/src/lib.rs, and the filters over them that
-- follow a fetch.
pub mod Laws
pub mod Dates
use xero_visma_v.Base.{
  ℕ, Bool, true, false, ◌&&◌, ◌||◌, Option, none, some, List, [], ◌∷◌, Text, codes, trim,
  strip_prefix, take_while, parse_i64, filter, leb, ltb, ◌==◌, if◌then◌else◌, and_then, or_else,
  map_option, is_none,
}
use xero_visma_v.Foreign.{Time, Chrono, Json}
use xero_visma_v.Entity.{EntityType}
use xero_visma_v.Client.Query.{BusinessDateQueryMode, local_only, business_date_query_mode}
use xero_visma_v.Client.Window.{DateWindow}

-- `ch.is_ascii_digit() || ch == '-'`
abbrev pub is_date_char : ℕ → Bool
is_date_char c = (leb b'0' c && leb c b'9') || (c == b'-')

unfoldable pub business_fields : BusinessDateQueryMode → List Text
business_fields (local_only field) = field ∷ []
business_fields _ = codes "Date" ∷ codes "DateString" ∷ []

module _ (J : Json) (C : Chrono) where
  unfoldable pub parse_xero_json_date : Text → Option Time
  parse_xero_json_date raw =
      and_then (strip_prefix (codes "/Date(") raw)
        λ rest. and_then (parse_i64 (take_while is_date_char rest)) C.timestamp_millis

  unfoldable pub parse_datetime_value : J.Value → Option Time
  unfolding parse_xero_json_date
  parse_datetime_value value =
      and_then (J.as_str value)
        λ s. or_else (C.from_rfc3339 (trim s)) (parse_xero_json_date (trim s))

  unfoldable pub parse_date_value : J.Value → Option C.Date
  unfolding parse_xero_json_date
  parse_date_value value = and_then (J.as_str value) λ s.
      or_else (map_option C.date_naive (C.from_rfc3339 (trim s))) (
        or_else (map_option C.date_naive (parse_xero_json_date (trim s)))
          (or_else (C.date_from_str (trim s)) (C.date_of_local (trim s))))

  -- `fields.iter().find_map(|field| record.get(field).and_then(parse))`
  abbrev pub find_field {ℓ} : {A : Type ℓ} → (J.Value → Option A) → List Text → J.Value → Option A
  find_field parse [] record_ = none
  find_field parse (field ∷ fields) record_ =
      or_else (and_then (J.get record_ field) parse) (find_field parse fields record_)

  unfoldable pub record_modified_at : J.Value → Option Time
  unfolding parse_datetime_value
  record_modified_at = find_field parse_datetime_value (
      codes "UpdatedDateUTC"
      ∷ codes "UpdatedDateUtc"
      ∷ codes "updatedDateUtc"
      ∷ codes "updated_date_utc"
      ∷ codes "updated_at"
      ∷ [])

  unfoldable pub record_business_date : EntityType → J.Value → Option C.Date
  unfolding parse_date_value business_fields
  record_business_date e record_ =
      and_then (business_date_query_mode e)
        λ mode. find_field parse_date_value (business_fields mode) record_

  -- `bound.map(test).unwrap_or(true)`
  abbrev pub holds_or_open : Option Time → (Time → Bool) → Bool
  holds_or_open none test = true
  holds_or_open (some t) test = test t

  -- The closure of the filter, on the time of the record.
  unfoldable pub in_modified_window : Option Time → Option Time → Option Time → Bool
  in_modified_window after before none = is_none before
  in_modified_window after before (some updated_at) =
      holds_or_open after (λ t. leb t updated_at) && holds_or_open before (λ t. ltb updated_at t)

  unfoldable pub filter_records_by_modified_window :
      List J.Value → Option Time → Option Time → List J.Value
  unfolding in_modified_window record_modified_at
  filter_records_by_modified_window records after before =
      if is_none after && is_none before
      then records
      else filter (λ r. in_modified_window after before (record_modified_at r)) records

  -- The closure of the filter, on the date of the record.
  unfoldable pub in_window : DateWindow C.Date → Option C.Date → Bool
  in_window window none = false
  in_window window (some date) =
      leb (C.day window.start) (C.day date) && ltb (C.day date) (C.day window.end_exclusive)

  unfoldable pub filter_records_by_business_date_window :
      EntityType → List J.Value → DateWindow C.Date → List J.Value
  unfolding in_window record_business_date
  filter_records_by_business_date_window e records window =
      filter (λ r. in_window window (record_business_date e r)) records
