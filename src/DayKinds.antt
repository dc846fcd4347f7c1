-- ===== src/DayKinds.antt =====
-- frontend/src/lib/day-kind.ts and the calendar types of frontend/src/types/index.ts.
pub mod Agreement
use pwa_attendance_record_sy.Prelude.{
  ℕ, ◌+◌, ◌-◌, ◌*◌, ◌/◌, Bool, true, false, ◌&&◌, Option, none, some, ◌==◌, if◌then◌else◌, field_of,
}
use pwa_attendance_record_sy.Text.{Text}
use pwa_attendance_record_sy.Dates.{LocalTime, get_day, weekday, day_number, parse_date}

pub data DayKind : Type 0 where
  workday makeup_workday national_holiday rest_day regular_leave : DayKind

pub record WorkdayInfo : Type 0 where
  pub date : Text
  pub weekday_zh : Text
  pub is_holiday : Bool
  pub description : Text
  pub is_makeup_workday : Bool
  pub day_kind : Option DayKind

-- The browser's time zone, in minutes ahead of UTC or behind it.
pub record Zone : Type 0 where
  pub ahead : ℕ
  pub behind : ℕ

-- The local day on which the UTC day n begins: a date without a time is read as midnight UTC.
unfoldable pub local_day : Zone → ℕ → ℕ
local_day z n = (n * 1440 + z.ahead - z.behind) / 1440

-- `new Date(d.date).getDay()`; an invalid date has none.
unfoldable pub get_day_of : Zone → Text → Option ℕ
unfolding local_day
get_day_of z date =
    field_of (λ (y, m, d). weekday (local_day z (day_number y m d))) (parse_date date)

-- `wd === n`
abbrev pub day_is : Option ℕ → ℕ → Bool
day_is none n = false
day_is (some wd) n = wd == n

-- `deriveDayKindFromDate`
unfoldable pub derive_day_kind_from_date : LocalTime → DayKind
derive_day_kind_from_date date =
    let wd = get_day date in
    if wd == 0 then regular_leave else if wd == 6 then rest_day else workday

-- `deriveDayKindFromWorkday` where the calendar gave no kind
unfoldable pub derive_day_kind : Zone → WorkdayInfo → DayKind
derive_day_kind z d =
    let wd = get_day_of z d.date in
    if day_is wd 0
    then regular_leave
    else if d.is_makeup_workday
    then makeup_workday
    else if day_is wd 6 && d.is_holiday
    then rest_day
    else if d.is_holiday
    then national_holiday
    else workday

-- `deriveDayKindFromWorkday`
unfoldable pub derive_day_kind_from_workday : Zone → WorkdayInfo → DayKind
derive_day_kind_from_workday z d = elim d.day_kind [ some kind ↦ kind | none ↦ derive_day_kind z d ]
