-- ===== src/Foreign.antt =====
-- What the program takes from crates that are not part of the repository, as parameters: the dates
-- and instants of chrono, the values of serde_json, and the replies of the network (reqwest), with
-- the random numbers (rand) and the clock.
pub mod Laws
use xero_visma_v.Base.{ℕ, ℤ, Option, List, Text, Result}

-- `DateTime<Utc>`: an instant, by its distance from the first one.
abbrev pub Time : Type 0
Time = ℕ

pub record Chrono : Type 1 where
  -- `NaiveDate`
  pub Date : Type 0
  -- days since the first date
  pub day : Date → ℕ
  pub year : Date → ℤ
  pub month : Date → ℕ
  pub day_of_month : Date → ℕ
  -- `%Y-%m-%d`, also `Display`
  pub iso : Date → Text
  pub checked_add_months : Date → ℕ → Option Date
  -- also `pred_opt` and the subtraction of a `Duration`, which panics at `none`
  pub checked_sub_days : Date → ℕ → Option Date
  pub with_day_one : Date → Option Date
  -- `NaiveDate::MAX`
  pub max_date : Date
  -- `str::parse::<NaiveDate>`
  pub parse_date : Text → Option Date
  -- `NaiveDate::parse_from_str` under `%Y-%m-%d`
  pub date_from_str : Text → Option Date
  -- `NaiveDateTime::parse_from_str` under `%Y-%m-%dT%H:%M:%S`, and then `date()`
  pub date_of_local : Text → Option Date
  -- `DateTime::parse_from_rfc3339`, as an instant
  pub from_rfc3339 : Text → Option Time
  -- `Utc.timestamp_millis_opt`
  pub timestamp_millis : ℤ → Option Time
  pub date_naive : Time → Date
  -- `and_hms_opt(0, 0, 0)`, as an instant
  pub midnight : Date → Time
  pub minus_days : Time → ℤ → Time
  pub rfc3339 : Time → Text
  -- `%Y%m%dT%H%M%SZ`
  pub compact : Time → Text
  -- `%Y-%m-%dT%H:%M:%S`
  pub since : Time → Text

pub record Json : Type 1 where
  pub Value : Type 0
  -- `from_slice`, or the message of its error
  pub from_slice : Text → Result Text Value
  pub get : Value → Text → Option Value
  pub as_array : Value → Option (List Value)
  pub as_str : Value → Option Text
  pub as_i64 : Value → Option ℤ
  -- `Value::String` and `Value::Object`
  pub string : Text → Value
  pub object : List (Text × Value) → Value
  -- `to_vec_pretty` of a map of texts
  pub pretty : List (Text × Text) → Text
