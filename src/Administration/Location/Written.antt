-- ===== src/Administration/Location/Written.antt =====
-- Coordinates that are written as decimals, through the form of the office location
-- (frontend/src/app/admin/page.tsx, OfficeLocationSection).
use pwa_attendance_record_sy.Prelude.{
  ℕ, zero, suc, ◌*◌, ◌^◌, ◌≤◌, ◌≡◌, refl, ap, ◌∙◌, Bool, true, false, not, ◌||◌, Bool-cases, inl,
  inr, [], ◌∷◌, ◌++◌, all, none, some, arith, ltb, ◌==◌, if◌then◌else◌, drop, length,
}
use pwa_attendance_record_sy.Text.{Text, trim_start, truthy, is_space, codes}
use pwa_attendance_record_sy.Text.Decimal.{number_from, is_digit}
use pwa_attendance_record_sy.Messages.{said}
use pwa_attendance_record_sy.Administration.Settings.{begin, end_with_error, leading_digits}
use pwa_attendance_record_sy.Administration.Location.{
  Numeral, decimal, behind_digits, exponent, split_point, parts, decimal_of, parse_unsigned,
  parse_with_sign, parse_float, is_latitude, is_longitude, LocationSection, check_location,
  submit_location,
}

-- A number as it is written: a sign or none, digits, a point, digits, and what follows them
pub record Written : Type 0 where
  pub negative : Bool
  pub whole : Text
  pub fraction : Text
  pub behind : Text

abbrev pub text_of : Written → Text
text_of w =
    let number = w.whole ++ (b'.' ∷ (w.fraction ++ w.behind)) in
    if w.negative then b'-' ∷ number else number

-- The text does not go on with a digit, nor with an exponent.
abbrev pub is_end : Text → Bool
is_end [] = true
is_end (c ∷ s) = not (is_digit c || c == b'e' || c == b'E')

pub record IsWritten (w : Written) : Type 0 where
  pub whole_digits : all is_digit w.whole ≡ true
  pub fraction_digits : all is_digit w.fraction ≡ true
  pub nonempty : truthy w.whole ≡ true
  pub ended : is_end w.behind ≡ true
  pub at_most_13 : length w.fraction ≤ 13

-- The size of the number is `digits w` / 10 ^ `places w`.
abbrev pub digits : Written → ℕ
digits w = number_from 0 (w.whole ++ w.fraction)

abbrev pub places : Written → ℕ
places w = length w.fraction

abbrev pub number_of : Written → Numeral
number_of w = decimal w.negative (digits w) 0 (places w)

not_digit : Text → Bool
not_digit [] = true
not_digit (c ∷ s) = not (is_digit c)

leading_digits-append :
    (s t : Text) → all is_digit s ≡ true → not_digit t ≡ true → leading_digits (s ++ t) ≡ s
unfolding leading_digits not_digit
leading_digits-append [] [] h k = refl
leading_digits-append [] (c ∷ t) h k = ground arith
leading_digits-append (c ∷ s) t h k = ground (arith, leading_digits-append s t)

drop-append : (s t : Text) → drop (length s) (s ++ t) ≡ t
drop-append [] t = refl
drop-append (c ∷ s) t = drop-append s t

behind_digits-append :
    (s t : Text) → all is_digit s ≡ true → not_digit t ≡ true → behind_digits (s ++ t) ≡ t
unfolding behind_digits
behind_digits-append s t h k = rw (leading_digits-append s t h k) (drop-append s t)

not_digit_of_end : (s : Text) → is_end s ≡ true → not_digit s ≡ true
unfolding not_digit
not_digit_of_end [] h = refl
not_digit_of_end (c ∷ s) h = ground arith

point : (s : Text) → not_digit (b'.' ∷ s) ≡ true
unfolding not_digit is_digit
point s = refl

parts-written :
    (w f r : Text)
    → all is_digit w ≡ true
    → all is_digit f ≡ true
    → is_end r ≡ true
    → parts (w ++ (b'.' ∷ (f ++ r))) ≡ (w, f, r)
unfolding parts split_point
parts-written w f r h k e =
    let n = not_digit_of_end r e in
    rw
      (
        behind_digits-append w (b'.' ∷ (f ++ r)) h (point (f ++ r)),
        leading_digits-append w (b'.' ∷ (f ++ r)) h (point (f ++ r)),
      )
      (rw (behind_digits-append f r k n, leading_digits-append f r k n) refl)

exponent_of_end : (s : Text) → is_end s ≡ true → exponent s ≡ (false, 0)
unfolding exponent
exponent_of_end [] h = refl
exponent_of_end (c ∷ s) h = ground arith

truthy-append : (s t : Text) → truthy s ≡ true → truthy (s ++ t) ≡ true
truthy-append [] t h = ground arith
truthy-append (c ∷ s) t h = refl

parse_unsigned-written :
    (w : Written)
    → IsWritten w
    → parse_unsigned w.negative (w.whole ++ (b'.' ∷ (w.fraction ++ w.behind))) ≡ some (number_of w)
unfolding parse_unsigned decimal_of
parse_unsigned-written w v =
    rw
      (
        parts-written w.whole w.fraction w.behind v.whole_digits v.fraction_digits v.ended,
        truthy-append w.whole w.fraction v.nonempty,
        exponent_of_end w.behind v.ended,
      )
      refl

digit_not :
    (c : ℕ)
    → is_digit c ≡ true
    → (is_space c ≡ false) × ((c == b'-') ≡ false) × ((c == b'+') ≡ false)
unfolding is_digit is_space
digit_not c h = ground (arith, h)

parse_float-unsigned :
    (s t : Text)
    → all is_digit s ≡ true
    → truthy s ≡ true
    → parse_float (s ++ t) ≡ parse_unsigned false (s ++ t)
unfolding parse_float parse_with_sign trim_start
parse_float-unsigned [] t h k = ground arith
parse_float-unsigned (c ∷ s) t h k = let n = digit_not c (ground arith) in rw (n.0, n.1, n.2) refl

parse_float-minus : (s : Text) → parse_float (b'-' ∷ s) ≡ parse_unsigned true s
unfolding parse_float parse_with_sign trim_start is_space
parse_float-minus s = refl

parse_float-written : (w : Written) → IsWritten w → parse_float (text_of w) ≡ some (number_of w)
parse_float-written w v = elim (Bool-cases w.negative) [
  | inl e ↦ rw e (parse_float-minus _ ∙ rw e at (parse_unsigned-written w v))
  | inr e ↦ rw e (
      parse_float-unsigned w.whole (b'.' ∷ (w.fraction ++ w.behind)) v.whole_digits v.nonempty
      ∙ rw e at (parse_unsigned-written w v))
]

pow_pos : (n : ℕ) → 1 ≤ 10 ^ n
pow_pos zero = omega arith
pow_pos (suc n) = omega (arith, pow_pos n)

pow_mono : (k n : ℕ) → k ≤ n → 10 ^ k ≤ 10 ^ n
pow_mono zero n h = pow_pos n
pow_mono (suc k) zero h = absurd (omega arith)
pow_mono (suc k) (suc n) h = omega (arith, pow_mono k n)

-- With at most 13 decimals, a number that is rounded to a bound does not exceed it.
is_latitude-written :
    (w : Written)
    → IsWritten w
    → is_latitude (number_of w) ≡ not (ltb (90 * 10 ^ places w) (digits w))
unfolding is_latitude
is_latitude-written w v = ground (arith, pow_mono (places w) 13)

is_longitude-written :
    (w : Written)
    → IsWritten w
    → is_longitude (number_of w) ≡ not (ltb (180 * 10 ^ places w) (digits w))
unfolding is_longitude
is_longitude-written w v = ground (arith, pow_mono (places w) 13)

-- The section after a check that failed
abbrev pub told : Text → LocationSection → LocationSection
told message p = record p { form = end_with_error (said message []) (begin p.form) }

-- Of coordinates that are written as decimals, with a point and at most 13 digits behind it, the form
-- sends the two numbers, whatever follows them without going on with the number, if the latitude is
-- from -90 to 90 and the longitude from -180 to 180; otherwise it sends nothing and tells of the
-- latitude, or else of the longitude.
pub submit_location-written :
    (p : LocationSection) (lat lng : Written)
    → IsWritten lat
    → IsWritten lng
    → p.form.values ≡ (text_of lat, text_of lng)
    → submit_location p ≡ (
        if ltb (90 * 10 ^ places lat) (digits lat)
        then (told (codes "admin.invalidLatitude") p, none)
        else if ltb (180 * 10 ^ places lng) (digits lng)
        then (told (codes "admin.invalidLongitude") p, none)
        else (record p { form = begin p.form }, some (number_of lat, number_of lng)))
unfolding submit_location check_location
submit_location-written p lat lng v w e =
    let reads_lat : parse_float p.form.values.0 ≡ some (number_of lat) =
      ap (λ (c : Text × Text). parse_float c.0) e ∙ parse_float-written lat v in
    let reads_lng : parse_float p.form.values.1 ≡ some (number_of lng) =
      ap (λ (c : Text × Text). parse_float c.1) e ∙ parse_float-written lng w in
    rw (reads_lat, reads_lng)
      (rw (is_latitude-written lat v, is_longitude-written lng w) (ground arith))
