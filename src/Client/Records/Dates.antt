-- ===== src/Client/Records/Dates.antt =====
-- The dates that Xero writes as `/Date(milliseconds+offset)/`.
use xero_visma_v.Base.{
  ℕ, ◌+◌, ◌-◌, ◌*◌, ◌^◌, ◌≡◌, refl, ap, ◌∙◌, Bool, true, false, none, some, [], ◌∷◌, ◌++◌, Text,
  codes, ℤ, pos, negsuc, IsI64, show, show_ℤ, parse_i64, parse_i64-show_ℤ, parse_unsigned,
  parse_digits, show-IsDigit, IsDigit, strip_prefix, take_while, is_whitespace, show-some, ◌≢◌,
  trim, All, All-weaken, All-append, and_then, arith,
}
use xero_visma_v.Base.Trim.{IsInk, trim-IsInk, show_ℤ-IsInk}
use xero_visma_v.Foreign.{Time, Chrono, Json}
use xero_visma_v.Client.Records.{
  is_date_char, parse_xero_json_date, parse_datetime_value, parse_date_value,
}

-- What the server writes for a number of milliseconds, and then `rest`.
abbrev pub json_date : ℤ → Text → Text
json_date z rest = codes "/Date(" ++ (show_ℤ z ++ rest)

strip_prefix-append : (t s : Text) → strip_prefix t (t ++ s) ≡ some s
strip_prefix-append [] s = refl
strip_prefix-append (c ∷ t) s = ground (arith, strip_prefix-append t s)

take_while-append :
    (p : ℕ → Bool) (a : Text) (c : ℕ) (rest : Text)
    → All (λ d. p d ≡ true) a
    → p c ≡ false
    → take_while p (a ++ c ∷ rest) ≡ a
take_while-append p [] c rest all stop = rw stop refl
take_while-append p (d ∷ a) c rest all stop =
    rw all.0 (ap (λ s. d ∷ s) (take_while-append p a c rest all.1 stop))

digits-date_char : (n : ℕ) → All (λ d. is_date_char d ≡ true) (show n)
digits-date_char n =
    All-weaken IsDigit (λ d. is_date_char d ≡ true) (λ d h. ground arith) (show n) (show-IsDigit n)

number-date_char : (z : ℤ) → All (λ d. is_date_char d ≡ true) (show_ℤ z)
unfolding show_ℤ
number-date_char (pos n) = digits-date_char n
number-date_char (negsuc n) = (refl, digits-date_char _)

module _ (J : Json) (C : Chrono) where
  parse_xero_json_date-json_date :
      (z : ℤ) (c : ℕ) (rest : Text)
      → IsI64 z
      → is_date_char c ≡ false
      → parse_xero_json_date J C (json_date z (c ∷ rest)) ≡ C.timestamp_millis z
  unfolding parse_xero_json_date
  parse_xero_json_date-json_date z c rest fits stop =
      ap (λ o. and_then o λ r. and_then (parse_i64 (take_while is_date_char r)) C.timestamp_millis)
        (strip_prefix-append (codes "/Date(") (show_ℤ z ++ c ∷ rest))
      ∙ ap (λ s. and_then (parse_i64 s) C.timestamp_millis)
          (take_while-append is_date_char (show_ℤ z) c rest (number-date_char z) stop)
      ∙ ap (λ o. and_then o C.timestamp_millis) (parse_i64-show_ℤ z fits)

  json_date-IsInk : (z : ℤ) (rest : Text) → All IsInk rest → All IsInk (json_date z rest)
  unfolding is_whitespace
  json_date-IsInk z rest ink =
      All-append IsInk (codes "/Date(") (show_ℤ z ++ rest)
        (refl, (refl, (refl, (refl, (refl, (refl, tt))))))
        (All-append IsInk (show_ℤ z) rest (show_ℤ-IsInk z) ink)

  -- A JSON text `/Date(n…)/`, where `n` is an `i64`, what follows it starts with neither a digit
  -- nor a minus sign and has no blank, and the text is no RFC 3339 date: as a time it is the
  -- instant `n` milliseconds after the epoch, where there is one, and as a date the day of it.
  pub parse_values-json_date :
      (value : J.Value) (z : ℤ) (c : ℕ) (rest : Text) (t : Time)
      → J.as_str value ≡ some (json_date z (c ∷ rest))
      → C.from_rfc3339 (json_date z (c ∷ rest)) ≡ none
      → IsI64 z
      → is_date_char c ≡ false
      → All IsInk (c ∷ rest)
      → C.timestamp_millis z ≡ some t
      → (parse_datetime_value J C value ≡ some t)
        × (parse_date_value J C value ≡ some (C.date_naive t))
  unfolding parse_datetime_value parse_date_value
  parse_values-json_date value z c rest t text other fits stop ink there =
      let s = json_date z (c ∷ rest) in
      let same : trim s ≡ s = trim-IsInk s (json_date-IsInk z (c ∷ rest) ink) in
      let read : parse_xero_json_date J C s ≡ some t =
        parse_xero_json_date-json_date z c rest fits stop ∙ there in
      (rw (text, same, other, read) refl, rw (text, same, other, read) refl)

minus-refused : (bound n : ℕ) (s rest : Text) → parse_digits bound n (s ++ b'-' ∷ rest) ≡ none
unfolding parse_digits
minus-refused bound n [] rest = ground arith
minus-refused bound n (d ∷ s) rest =
    ground (arith, minus-refused bound (n * 10 + (d - b'0')) s rest)

unsigned-minus :
    (bound : ℕ) (s rest : Text)
    → s ≢ []
    → All IsDigit s
    → parse_unsigned bound (s ++ b'-' ∷ rest) ≡ none
unfolding parse_unsigned
unsigned-minus bound [] rest some_digits d = absurd (some_digits refl)
unsigned-minus bound (c ∷ []) rest some_digits d =
    ground (arith, d.0, minus-refused bound 0 (c ∷ []) rest)
unsigned-minus bound (c ∷ e ∷ s) rest some_digits d =
    ground (arith, d.0, minus-refused bound 0 (c ∷ e ∷ s) rest)

signed-minus : (s rest : Text) → s ≢ [] → All IsDigit s → parse_i64 (s ++ b'-' ∷ rest) ≡ none
unfolding parse_i64
signed-minus [] rest some_digits d = absurd (some_digits refl)
signed-minus (c ∷ s) rest some_digits d =
    ground (arith, d.0, unsigned-minus (2 ^ 63) (c ∷ s) rest some_digits d)

take_while-prefix :
    (p : ℕ → Bool) (a rest : Text)
    → All (λ d. p d ≡ true) a
    → take_while p (a ++ rest) ≡ a ++ take_while p rest
take_while-prefix p [] rest all = refl
take_while-prefix p (d ∷ a) rest all = rw all.0 (ap (λ s. d ∷ s) (take_while-prefix p a rest all.1))

-- A JSON date after the epoch whose offset from UTC is negative is not read.
pub parse_xero_json_date-west :
    (J : Json) (C : Chrono) (n : ℕ) (rest : Text)
    → parse_xero_json_date J C (json_date (pos n) (b'-' ∷ rest)) ≡ none
unfolding parse_xero_json_date show_ℤ
parse_xero_json_date-west J C n rest =
    ap (λ o. and_then o λ r. and_then (parse_i64 (take_while is_date_char r)) C.timestamp_millis)
      (strip_prefix-append (codes "/Date(") (show n ++ b'-' ∷ rest))
    ∙ ap (λ s. and_then (parse_i64 s) C.timestamp_millis)
        (take_while-prefix is_date_char (show n) (b'-' ∷ rest) (digits-date_char n))
    ∙ ap (λ o. and_then o C.timestamp_millis)
        (signed-minus (show n) (take_while is_date_char rest) (show-some n) (show-IsDigit n))
