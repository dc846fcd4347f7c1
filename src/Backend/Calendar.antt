-- ===== src/Backend/Calendar.antt =====
-- backend/app/utils/taiwan_calendar.py, and the entry that the calendar endpoint of
-- backend/app/routers/system_config.py sends for a day.
use pwa_attendance_record_sy.Prelude.{
  ℕ, ◌+◌, ◌%◌, Bool, false, ◌&&◌, [], some, ◌==◌, leb, if◌then◌else◌,
}
use pwa_attendance_record_sy.Text.{Text}
use pwa_attendance_record_sy.Dates.{day_number, date_string}
use pwa_attendance_record_sy.DayKinds.{
  DayKind, workday, makeup_workday, national_holiday, rest_day, regular_leave, WorkdayInfo,
}

-- `DayInfo`, its date by year, month and day.
pub record DayInfo : Type 0 where
  pub year : ℕ
  pub month : ℕ
  pub day : ℕ
  pub weekday_zh : Text
  pub is_holiday : Bool
  pub description : Text
  pub is_makeup_workday : Bool

-- `date.weekday()`: 0 is Monday.
unfoldable pub py_weekday : ℕ → ℕ
py_weekday n = (n + 5) % 7

unfoldable pub classify_day_kind : DayInfo → DayKind
classify_day_kind day =
    let wd = py_weekday (day_number day.year day.month day.day) in
    if wd == 6
    then regular_leave
    else if day.is_makeup_workday
    then makeup_workday
    else if wd == 5 && day.is_holiday
    then rest_day
    else if day.is_holiday
    then national_holiday
    else workday

unfoldable pub weekday_fallback : ℕ → ℕ → ℕ → DayKind
weekday_fallback y m d =
    let wd = py_weekday (day_number y m d) in
    if wd == 6 then regular_leave else if wd == 5 then rest_day else workday

-- The entry of `get_month_info_from_data` for a day that the calendar data lacks.
unfoldable pub default_day : Text → ℕ → ℕ → ℕ → DayInfo
default_day weekday_zh y m d = record {
  year = y;
  month = m;
  day = d;
  weekday_zh = weekday_zh;
  is_holiday = leb 5 (py_weekday (day_number y m d));
  description = [];
  is_makeup_workday = false;
}

-- An entry of the calendar endpoint's answer.
unfoldable pub workday_entry : DayInfo → WorkdayInfo
workday_entry d = record {
  date = date_string d.year d.month d.day;
  weekday_zh = d.weekday_zh;
  is_holiday = d.is_holiday;
  description = d.description;
  is_makeup_workday = d.is_makeup_workday;
  day_kind = some (classify_day_kind d);
}
