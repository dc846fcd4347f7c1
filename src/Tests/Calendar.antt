-- ===== src/Tests/Calendar.antt =====
-- Dates, day kinds and time inputs at concrete inputs.
use pwa_attendance_record_sy.Prelude.{◌≡◌, refl, ◌∙◌, true, false, some, arith}
use pwa_attendance_record_sy.Text.{codes}
use pwa_attendance_record_sy.Text.Decimal.{is_digit, number_from}
use pwa_attendance_record_sy.Dates.{
  LocalTime, day_number, first_of_index, get_day, local_date_string, iso_date_only, parse_clock,
}
use pwa_attendance_record_sy.Dates.Months.{get_days_in_month}
use pwa_attendance_record_sy.DayKinds.{
  Zone, regular_leave, rest_day, makeup_workday, derive_day_kind_from_date,
  derive_day_kind_from_workday,
}
use pwa_attendance_record_sy.DayKinds.Agreement.{without_kind, derive_day_kind-classify}
use pwa_attendance_record_sy.Backend.Calendar.{
  DayInfo, classify_day_kind, workday_entry, py_weekday,
}
use pwa_attendance_record_sy.Override.Edit.{normalize_time_input, with_colon}

abbrev taipei : Zone
taipei = record { ahead = 480; behind = 0 }

abbrev early_morning : LocalTime
early_morning = record { year = 2026; month = 7; date = 1; hours = 7; minutes = 41 }

july_first :
    (local_date_string early_morning ≡ codes "2026-07-01")
    × (get_day early_morning ≡ 3)
    × (iso_date_only (codes "2026-07-01T07:41:00") ≡ codes "2026-07-01")
    × (parse_clock (codes "2026-07-01T07:41:00") ≡ some (7, 41))
    × (get_days_in_month 2024 2 ≡ 29)
    × (get_days_in_month 2026 12 ≡ 31)
unfolding local_date_string get_day iso_date_only parse_clock get_days_in_month first_of_index
    is_digit number_from
july_first = (refl, refl, refl, refl, refl, refl)

-- A Saturday on which work is made up.
abbrev makeup_saturday : DayInfo
makeup_saturday = record {
  year = 2026;
  month = 7;
  day = 4;
  weekday_zh = codes "六";
  is_holiday = false;
  description = codes "補班";
  is_makeup_workday = true;
}

kinds :
    (derive_day_kind_from_workday taipei (without_kind (workday_entry makeup_saturday))
      ≡ makeup_workday)
    × (derive_day_kind_from_date (record early_morning { date = 4 }) ≡ rest_day)
    × (derive_day_kind_from_date (record early_morning { date = 5 }) ≡ regular_leave)
unfolding derive_day_kind_from_date get_day first_of_index
kinds = (
  (derive_day_kind-classify taipei makeup_saturday (omega arith) (omega arith)).1
      ∙ (unfold classify_day_kind py_weekday day_number first_of_index in refl),
  refl,
  refl,
)

derive_day_kind-classify_example :
    (derive_day_kind_from_workday taipei (workday_entry makeup_saturday)
      ≡ classify_day_kind makeup_saturday)
    × (derive_day_kind_from_workday taipei (without_kind (workday_entry makeup_saturday))
        ≡ classify_day_kind makeup_saturday)
derive_day_kind-classify_example =
    derive_day_kind-classify taipei makeup_saturday (omega arith) (omega arith)

typed : normalize_time_input (codes "17.30 h") ≡ codes "17:30"
unfolding normalize_time_input with_colon is_digit
typed = refl
