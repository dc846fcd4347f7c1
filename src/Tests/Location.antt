-- ===== src/Tests/Location.antt =====
-- The form of the office location at concrete inputs (frontend/src/app/admin/page.tsx).
use pwa_attendance_record_sy.Prelude.{
  ◌*◌, ◌^◌, ◌≡◌, refl, true, false, none, some, arith, ltb, if◌then◌else◌,
}
use pwa_attendance_record_sy.Text.{codes, trim_start, text_eq}
use pwa_attendance_record_sy.Text.Decimal.{is_digit, number_from}
use pwa_attendance_record_sy.Administration.Settings.{begin}
use pwa_attendance_record_sy.Administration.Location as Location
use pwa_attendance_record_sy.Administration.Location.Written.{
  Written, IsWritten, text_of, digits, places, number_of, told, submit_location-written,
}

abbrev latitude : Written
latitude = record {
  negative = false;
  whole = codes "25";
  fraction = codes "0330";
  behind = codes " N";
}

abbrev longitude : Written
longitude = record { negative = true; whole = codes "181"; fraction = codes "5"; behind = codes "" }

abbrev section : Location.LocationSection
section = record {
  form = record {
    values = (text_of latitude, text_of longitude);
    is_loading = false;
    error = none;
    success = none;
    is_submitting = false;
  };
  has_existing = false;
}

latitude-IsWritten : IsWritten latitude
unfolding is_digit
latitude-IsWritten = record {
  whole_digits = refl;
  fraction_digits = refl;
  nonempty = refl;
  ended = refl;
  at_most_13 = omega arith;
}

longitude-IsWritten : IsWritten longitude
unfolding is_digit
longitude-IsWritten = record {
  whole_digits = refl;
  fraction_digits = refl;
  nonempty = refl;
  ended = refl;
  at_most_13 = omega arith;
}

submit_location-written_example : Location.submit_location section ≡ (
    if ltb (90 * 10 ^ places latitude) (digits latitude)
    then (told (codes "admin.invalidLatitude") section, none)
    else if ltb (180 * 10 ^ places longitude) (digits longitude)
    then (told (codes "admin.invalidLongitude") section, none)
    else (
      record section { form = begin section.form },
      some (number_of latitude, number_of longitude),
    ))
submit_location-written_example =
    submit_location-written section latitude longitude latitude-IsWritten longitude-IsWritten refl

reads_exponent : Location.parse_float (codes " -1.5e2x") ≡ some (Location.decimal true 15 2 1)
unfolding Location.parse_float trim_start number_from
reads_exponent = refl

reads_without_whole : Location.parse_float (codes ".5e-3") ≡ some (Location.decimal false 5 0 4)
unfolding Location.parse_float trim_start number_from
reads_without_whole = refl

reads_infinity : Location.parse_float (codes "+Infinity") ≡ some (Location.infinite false)
unfolding Location.parse_float trim_start text_eq
reads_infinity = refl

not_a_number : Location.parse_float (codes "-.e3") ≡ none
unfolding Location.parse_float trim_start text_eq
not_a_number = refl
