-- ===== src/Override/Saved.antt =====
-- A row of the monthly override page, saved, stored by the service and loaded again
-- (frontend/src/app/dashboard/monthly-override/page.tsx, backend/app/services/attendance_service.py,
-- backend/app/services/reporting_service.py).
pub mod Clocks
pub mod RoundTrip
pub mod Cleared
use pwa_attendance_record_sy.Prelude.{
  ℕ, ◌+◌, ◌*◌, ◌<◌, ◌≤◌, ◌≡◌, Bool, List, [], Option, none, some, field_of,
}
use pwa_attendance_record_sy.Text.{Text}
use pwa_attendance_record_sy.Text.Decimal.{hh_mm}
use pwa_attendance_record_sy.DayKinds.{Zone}
use pwa_attendance_record_sy.Backend.Calendar.{DayInfo, workday_entry}
use pwa_attendance_record_sy.Backend.Gate.{Summary, summary_entry}
use pwa_attendance_record_sy.Backend.Status.{Clock}
use pwa_attendance_record_sy.Backend.Day.{Day, Rules, daily_report}
use pwa_attendance_record_sy.Override.{DayRow, build_row}

-- A time of day in hours and minutes
pub record Time : Type 0 where
  pub hours : ℕ
  pub minutes : ℕ

pub record IsTime (t : Time) : Type 0 where
  pub hours_below : t.hours < 24
  pub minutes_below : t.minutes < 60

abbrev pub clock_at : Time → Clock
clock_at t = record { hours = t.hours; minutes = t.minutes; micros = 0 }

-- What an input of the row holds for a time, or for none
abbrev pub input_of : Option Time → Text
input_of none = []
input_of (some t) = hh_mm t.hours t.minutes

-- The parse of a time reads "HH:MM" as that time.
abbrev pub Reads : (Text → Option Clock) → Type 0
Reads parse_time = (t : Time) → IsTime t → parse_time (hh_mm t.hours t.minutes) ≡ some (clock_at t)

-- The row that a page shows of a day when it loads it
abbrev pub reloaded : Zone → Bool → DayInfo → Rules → Bool → Day → DayRow
reloaded z is_hr_plus info r expected d =
    build_row z is_hr_plus (workday_entry info)
      (field_of summary_entry (daily_report r expected d).1)
