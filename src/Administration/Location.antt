-- ===== src/Administration/Location.antt =====
-- frontend/src/app/admin/page.tsx, OfficeLocationSection: the form for the office location. A number is
-- carried as the decimal that it was read from, and a number of the service as its numeral.
pub mod Written
use pwa_attendance_record_sy.Prelude.{
  ℕ, ◌+◌, ◌*◌, ◌^◌, Bool, true, false, not, ◌||◌, List, [], ◌∷◌, ◌++◌, Option, none, some, ltb,
  ◌==◌, if◌then◌else◌, is_some, drop, take, length,
}
use pwa_attendance_record_sy.Text.{Text, codes, text_eq, trim_start, truthy}
use pwa_attendance_record_sy.Text.Decimal.{number_from}
use pwa_attendance_record_sy.Messages.{Note, said, Thrown, message_or}
use pwa_attendance_record_sy.Administration.Settings.{
  SettingsForm, begin, end_with_error, end_with_success, leading_digits,
}

-- A number that is not NaN: `decimal negative m up down` is the double next to m·10^up / 10^down.
pub data Numeral : Type 0 where
  infinite : Bool → Numeral
  decimal : Bool → ℕ → ℕ → ℕ → Numeral

unfoldable pub behind_digits : Text → Text
unfolding leading_digits
behind_digits s = drop (length (leading_digits s)) s

-- An exponent, with its sign; one without digits does not belong to the number.
unfoldable pub exponent_digits : Bool → Text → Bool × ℕ
exponent_digits negative s = (negative, number_from 0 (leading_digits s))

unfoldable pub signed_exponent : Text → Bool × ℕ
unfolding exponent_digits
signed_exponent [] = (false, 0)
signed_exponent (c ∷ s) =
    if c == b'-'
    then exponent_digits true s
    else if c == b'+'
    then exponent_digits false s
    else exponent_digits false (c ∷ s)

unfoldable pub exponent : Text → Bool × ℕ
unfolding signed_exponent
exponent [] = (false, 0)
exponent (c ∷ s) = if c == b'e' || c == b'E' then signed_exponent s else (false, 0)

-- The digits behind the point, after those before it, and what follows them
unfoldable pub split_point : Text → Text → Text × Text × Text
unfolding behind_digits
split_point whole [] = (whole, [], [])
split_point whole (c ∷ s) =
    if c == b'.' then (whole, leading_digits s, behind_digits s) else (whole, [], c ∷ s)

unfoldable pub parts : Text → Text × Text × Text
unfolding behind_digits split_point
parts s = split_point (leading_digits s) (behind_digits s)

unfoldable pub decimal_of : Bool → Text → Text → Bool × ℕ → Numeral
decimal_of negative whole fraction (below, e) =
    let m = number_from 0 (whole ++ fraction) in
    if below
    then decimal negative m 0 (length fraction + e)
    else decimal negative m e (length fraction)

-- The number that a text without a sign begins with
unfoldable pub parse_unsigned : Bool → Text → Option Numeral
unfolding parts exponent decimal_of
parse_unsigned negative s =
    let (whole, fraction, rest) = parts s in
    if truthy (whole ++ fraction)
    then some (decimal_of negative whole fraction (exponent rest))
    else if text_eq (take 8 s) (codes "Infinity")
    then some (infinite negative)
    else none

unfoldable pub parse_with_sign : Text → Option Numeral
unfolding parse_unsigned
parse_with_sign [] = none
parse_with_sign (c ∷ s) =
    if c == b'-'
    then parse_unsigned true s
    else if c == b'+'
    then parse_unsigned false s
    else parse_unsigned false (c ∷ s)

-- `parseFloat`; `none` is NaN.
unfoldable pub parse_float : Text → Option Numeral
unfolding parse_with_sign
parse_float s = parse_with_sign (trim_start s)

-- `x < -bound || x > bound` of the double x, for a whole bound next to which the doubles above lie
-- 2 / scale apart: a number up to the middle between the two is rounded to the bound.
unfoldable pub exceeds : ℕ → ℕ → Numeral → Bool
exceeds bound scale (infinite negative) = true
exceeds bound scale (decimal negative m up down) =
    ltb ((bound * scale + 1) * 10 ^ down) (m * 10 ^ up * scale)

-- The doubles from 64 to 128 lie 2 ^ -46 apart, those from 128 to 256 2 ^ -45.
unfoldable pub is_latitude : Numeral → Bool
unfolding exceeds
is_latitude lat = not (exceeds 90 (2 ^ 47) lat)

unfoldable pub is_longitude : Numeral → Bool
unfolding exceeds
is_longitude lng = not (exceeds 180 (2 ^ 46) lng)

-- The section; the values of the form are the texts of the latitude and the longitude.
pub record LocationSection : Type 0 where
  pub form : SettingsForm (Text × Text)
  pub has_existing : Bool

-- `fetchLocation`, ended: the numerals of the coordinates, unless one is missing
unfoldable pub location_loaded : Option (Text × Text) → LocationSection → LocationSection
location_loaded none p = record p { form = record p.form { is_loading = false } }
location_loaded (some coords) p = record {
  form = record p.form { values = coords; is_loading = false };
  has_existing = true;
}

unfoldable pub location_not_loaded : LocationSection → LocationSection
location_not_loaded p = record p { form = record p.form { is_loading = false } }

-- `handleSubmit` of both numbers up to its request, if it sends one
unfoldable pub check_location :
    Option Numeral → Option Numeral → LocationSection → LocationSection × Option (Numeral × Numeral)
unfolding begin end_with_error
check_location (some lat) (some lng) p =
    let f = begin p.form in
    if not (is_latitude lat)
    then (record p { form = end_with_error (said (codes "admin.invalidLatitude") []) f }, none)
    else if not (is_longitude lng)
    then (record p { form = end_with_error (said (codes "admin.invalidLongitude") []) f }, none)
    else (record p { form = f }, some (lat, lng))
check_location _ _ p = (
  record p { form = end_with_error (said (codes "admin.invalidCoords") []) (begin p.form) },
  none,
)

unfoldable pub submit_location : LocationSection → LocationSection × Option (Numeral × Numeral)
unfolding parse_float check_location
submit_location p = check_location (parse_float p.form.values.0) (parse_float p.form.values.1) p

unfoldable pub location_saved : LocationSection → LocationSection
unfolding end_with_success
location_saved p = record {
  form = end_with_success (said (codes "admin.locationUpdated") []) p.form;
  has_existing = true;
}

unfoldable pub location_refused : Thrown → LocationSection → LocationSection
unfolding end_with_error
location_refused err p = record p {
  form = end_with_error (message_or err (codes "admin.failedToUpdateLocation")) p.form;
}

pub data Event : Type 0 where
  -- the user's, in the form
  type_latitude type_longitude : Text → Event
  submit : Event
  -- the answers of the requests
  loaded : Option (Text × Text) → Event
  not_loaded saved : Event
  refused : Thrown → Event

-- The form is shown once the location has been asked for; its button is disabled while it saves.
unfoldable pub step : LocationSection → Event → LocationSection × Option (Numeral × Numeral)
unfolding submit_location location_loaded location_not_loaded location_saved location_refused
step p (type_latitude s) =
    if p.form.is_loading
    then (p, none)
    else (record p { form = record p.form { values = (s, p.form.values.1) } }, none)
step p (type_longitude s) =
    if p.form.is_loading
    then (p, none)
    else (record p { form = record p.form { values = (p.form.values.0, s) } }, none)
step p submit = if p.form.is_loading || p.form.is_submitting then (p, none) else submit_location p
step p (loaded coords) = (location_loaded coords p, none)
step p not_loaded = (location_not_loaded p, none)
step p saved = (location_saved p, none)
step p (refused err) = (location_refused err p, none)

-- What stands above the form
pub data Notice : Type 0 where
  loading nothing not_set : Notice
  current : Text → Notice

unfoldable pub notice : LocationSection → Notice
notice p =
    if p.form.is_loading
    then loading
    else if is_some p.form.success
    then nothing
    else if p.has_existing
    then current (p.form.values.0 ++ (codes ", " ++ p.form.values.1))
    else not_set
