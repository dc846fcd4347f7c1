-- ===== src/Override/Gate/Moments.antt =====
-- The timestamps of the service as the client reads them (`extractTime` of
-- frontend/src/app/dashboard/monthly-override/page.tsx).
use pwa_attendance_record_sy.Prelude.{
  ℕ, ◌+◌, ◌/◌, ◌%◌, ◌<◌, ◌≡◌, ◌↔◌, sym, ◌∙◌, ap, true, [], ◌∷◌, some, arith, take, drop, Bool_ext,
}
use pwa_attendance_record_sy.Text.{Text, text_eq}
use pwa_attendance_record_sy.Text.Laws.{text_eq_iff}
use pwa_attendance_record_sy.Text.Decimal.{
  hh_mm, hh_mm_lem, number_from, digit_lem, number_two, number_four,
}
use pwa_attendance_record_sy.Dates.{parse_clock}
use pwa_attendance_record_sy.Dates.Strings.{IsDay, date_string_lem}
use pwa_attendance_record_sy.Backend.Gate.{Moment, moment_eq, iso, ShiftEnd}
use pwa_attendance_record_sy.Override.{extract_time}

-- A moment that a `datetime` of a four-digit year can hold.
pub record IsMoment (t : Moment) : Type 0 where
  pub day : IsDay t.year t.month t.day
  pub hours_below : t.hours < 24
  pub minutes_below : t.minutes < 60

pub record IsShift (e : ShiftEnd) : Type 0 where
  pub hours_below : e.hours < 24
  pub minutes_below : e.minutes < 60
  pub seconds_below : e.seconds < 60

iso_lem :
    (t : Moment)
    → IsMoment t
    → iso t
      ≡ (b'0' + t.year / 10 / 10 / 10)
        ∷ (b'0' + t.year / 10 / 10 % 10)
        ∷ (b'0' + t.year / 10 % 10)
        ∷ (b'0' + t.year % 10)
        ∷ b'-'
        ∷ (b'0' + t.month / 10)
        ∷ (b'0' + t.month % 10)
        ∷ b'-'
        ∷ (b'0' + t.day / 10)
        ∷ (b'0' + t.day % 10)
        ∷ b'T'
        ∷ (b'0' + t.hours / 10)
        ∷ (b'0' + t.hours % 10)
        ∷ b':'
        ∷ (b'0' + t.minutes / 10)
        ∷ (b'0' + t.minutes % 10)
        ∷ t.rest
iso_lem t v =
    unfold iso in
    rw (
      date_string_lem t.year t.month t.day v.day,
      hh_mm_lem t.hours t.minutes v.hours_below v.minutes_below,
    )

parse_clock-iso : (t : Moment) → IsMoment t → parse_clock (iso t) ≡ some (t.hours, t.minutes)
parse_clock-iso t v = rw (iso_lem t v) (
    unfold parse_clock in
    ground (
      arith,
      digit_lem (t.hours / 10) (omega (arith, v.hours_below)),
      digit_lem (t.hours % 10) (omega arith),
      digit_lem (t.minutes / 10) (omega (arith, v.minutes_below)),
      digit_lem (t.minutes % 10) (omega arith),
      number_two t.hours,
      number_two t.minutes,
      v.hours_below,
      v.minutes_below,
    ))

extract_time_of_clock :
    (s : Text) (h m : ℕ) → parse_clock s ≡ some (h, m) → extract_time (some s) ≡ hh_mm h m
unfolding extract_time
extract_time_of_clock [] h m e = unfold parse_clock in cc
extract_time_of_clock (c ∷ s) h m e = rw (e, extract_time)

pub extract_time-iso :
    (t : Moment) → IsMoment t → extract_time (some (iso t)) ≡ hh_mm t.hours t.minutes
extract_time-iso t v = extract_time_of_clock (iso t) t.hours t.minutes (parse_clock-iso t v)

-- What is read off equal texts is equal.
same_reading {ℓ} :
    {A : Type ℓ} (f : Text → A) {s t : Text} {x y : A} → f s ≡ x → f t ≡ y → s ≡ t → x ≡ y
same_reading f p q h = sym p ∙ (ap f h ∙ q)

abbrev number_at : ℕ → Text → ℕ
number_at i s = number_from 0 (take 2 (drop i s))

module _ (t : Moment) (v : IsMoment t) where
  read_year : number_from 0 (take 4 (iso t)) ≡ t.year
  read_year = rw (iso_lem t v) (number_four t.year)

  read_month : number_at 5 (iso t) ≡ t.month
  read_month = rw (iso_lem t v) (number_two t.month)

  read_day : number_at 8 (iso t) ≡ t.day
  read_day = rw (iso_lem t v) (number_two t.day)

  read_hours : number_at 11 (iso t) ≡ t.hours
  read_hours = rw (iso_lem t v) (number_two t.hours)

  read_minutes : number_at 14 (iso t) ≡ t.minutes
  read_minutes = rw (iso_lem t v) (number_two t.minutes)

  read_rest : drop 16 (iso t) ≡ t.rest
  read_rest = rw (iso_lem t v)

iso_inj : (a b : Moment) → IsMoment a → IsMoment b → iso a ≡ iso b → a ≡ b
iso_inj a b v w h =
    let year = same_reading (λ s. number_from 0 (take 4 s)) (read_year a v) (read_year b w) h in
    let month = same_reading (number_at 5) (read_month a v) (read_month b w) h in
    let day = same_reading (number_at 8) (read_day a v) (read_day b w) h in
    let hours = same_reading (number_at 11) (read_hours a v) (read_hours b w) h in
    let minutes = same_reading (number_at 14) (read_minutes a v) (read_minutes b w) h in
    let rest = same_reading (drop 16) (read_rest a v) (read_rest b w) h in
    λ i. record {
      year = year i;
      month = month i;
      day = day i;
      hours = hours i;
      minutes = minutes i;
      rest = rest i;
    }

moment_eq_iff : (a b : Moment) → (moment_eq a b ≡ true) ↔ (a ≡ b)
unfolding moment_eq
moment_eq_iff a b = ground (arith, text_eq_iff a.rest b.rest)

-- The client compares the texts of two punches, the service their times: the tests agree.
pub text_eq-iso : (a b : Moment) → IsMoment a → IsMoment b → text_eq (iso a) (iso b) ≡ moment_eq a b
text_eq-iso a b v w =
    Bool_ext _ _ (λ h. (moment_eq_iff a b).1 (iso_inj a b v w ((text_eq_iff (iso a) (iso b)).0 h)))
      (λ h. (text_eq_iff (iso a) (iso b)).1 (ap iso ((moment_eq_iff a b).0 h)))
