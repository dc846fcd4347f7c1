-- ===== src/Dates.antt =====
-- frontend/src/lib/date.ts, and the parts of the language's `Date` that the client uses.
-- A moment is given by its local calendar components, which is all that the client reads of a
-- `Date`. Days are counted from the first of January of year 0 of the proleptic calendar.
pub mod Months
pub mod Strings
use pwa_attendance_record_sy.Prelude.{
  ℕ, zero, suc, ◌+◌, ◌-◌, ◌*◌, ◌/◌, ◌%◌, Bool, true, false, ◌&&◌, ◌||◌, not, List, [], ◌∷◌, ◌++◌,
  Option, none, some, ltb, leb, ◌==◌, if◌then◌else◌, all,
}
use pwa_attendance_record_sy.Text.{Text, codes, before}
use pwa_attendance_record_sy.Text.Decimal.{to_decimal, two_digits, number_from, is_digit, hh_mm}

-- Local components of a `Date`; `month` is `getMonth() + 1`.
pub record LocalTime : Type 0 where
  pub year : ℕ
  pub month : ℕ
  pub date : ℕ
  pub hours : ℕ
  pub minutes : ℕ

unfoldable pub is_leap : ℕ → Bool
is_leap y = (y % 4 == 0 && not (y % 100 == 0)) || y % 400 == 0

-- The days of a year before its month of index k (0 is January, 12 the whole year).
unfoldable pub days_before_index : Bool → ℕ → ℕ
days_before_index leap zero = 0
days_before_index leap (suc zero) = 31
days_before_index leap (suc (suc k)) = (if leap then 60 else 59) + (k * 153 + 2) / 5

unfoldable pub days_before_year : ℕ → ℕ
days_before_year y = y * 365 + (y + 3) / 4 + (y + 399) / 400 - (y + 99) / 100

-- The day on which the month of index k begins.
unfoldable pub first_of_index : ℕ → ℕ → ℕ
unfolding is_leap days_before_index days_before_year
first_of_index y k = days_before_year y + days_before_index (is_leap y) k

-- The day of a calendar date, months and days counted from 1.
unfoldable pub day_number : ℕ → ℕ → ℕ → ℕ
day_number y m d = first_of_index y (m - 1) + (d - 1)

-- `getDay()`: 0 is Sunday. Day 0 of the count is a Saturday.
unfoldable pub weekday : ℕ → ℕ
weekday n = (n + 6) % 7

unfoldable pub get_day : LocalTime → ℕ
unfolding weekday day_number
get_day d = weekday (day_number d.year d.month d.date)

-- `isoDateOnly`
unfoldable pub iso_date_only : Text → Text
unfolding before
iso_date_only iso = before b'T' iso

-- "YYYY-MM-DD" of a date
unfoldable pub date_string : ℕ → ℕ → ℕ → Text
unfolding to_decimal two_digits
date_string y m d = to_decimal y ++ (b'-' ∷ (two_digits m ++ (b'-' ∷ two_digits d)))

-- `localDateString`
unfoldable pub local_date_string : LocalTime → Text
unfolding date_string
local_date_string d = date_string d.year d.month d.date

-- `new Date(iso)` of a date "YYYY-MM-DD": year, month and day, or an invalid date.
unfoldable pub parse_date : Text → Option (ℕ × ℕ × ℕ)
parse_date (a ∷ b ∷ c ∷ d ∷ s ∷ e ∷ f ∷ t ∷ g ∷ h ∷ []) =
    let m = number_from 0 (e ∷ f ∷ []) in
    let n = number_from 0 (g ∷ h ∷ []) in
    if all is_digit (a ∷ b ∷ c ∷ d ∷ e ∷ f ∷ g ∷ h ∷ [])
      && s == b'-'
      && t == b'-'
      && leb 1 m
      && leb m 12
      && leb 1 n
      && leb n 31
    then some (number_from 0 (a ∷ b ∷ c ∷ d ∷ []), m, n)
    else none
parse_date _ = none

-- `new Date(iso)` of a naive timestamp "YYYY-MM-DDTHH:MM…": the hours and minutes that
-- `getHours()` and `getMinutes()` read, or an invalid date. What follows the minutes (seconds and
-- their fraction) moves neither.
unfoldable pub parse_clock : Text → Option (ℕ × ℕ)
parse_clock (y ∷ y' ∷ y'' ∷ y''' ∷ s ∷ m ∷ m' ∷ s' ∷ d ∷ d' ∷ t ∷ a ∷ b ∷ c ∷ e ∷ f ∷ rest) =
    let h = number_from 0 (a ∷ b ∷ []) in
    let n = number_from 0 (e ∷ f ∷ []) in
    if all is_digit (a ∷ b ∷ e ∷ f ∷ []) && t == b'T' && c == b':' && ltb h 24 && ltb n 60
    then some (h, n)
    else none
parse_clock _ = none
