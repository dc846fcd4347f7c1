-- ===== src/Backend/Gate.antt =====
-- backend/app/services/monthly_submission_service.py: the gate of `find_missing_late_reason_dates`
-- on one summary, and how the service writes the summary's timestamps and an employee's shift.
use pwa_attendance_record_sy.Prelude.{
  ℕ, ◌+◌, ◌*◌, Bool, true, false, not, ◌&&◌, List, ◌∷◌, ◌++◌, Option, none, some, ◌==◌, leb,
  if◌then◌else◌,
}
use pwa_attendance_record_sy.Text.{Text, text_eq, truthy?, includes}
use pwa_attendance_record_sy.Text.Decimal.{hh_mm, two_digits}
use pwa_attendance_record_sy.Text.Numbers.{Num}
use pwa_attendance_record_sy.Dates.{date_string}
use pwa_attendance_record_sy.DayKinds.{DayKind, workday, makeup_workday}
use pwa_attendance_record_sy.Types.{AttendanceStatus, DailyAttendanceSummary}

-- A naive `datetime`. `rest` is what `isoformat()` writes after the minutes: the seconds and, if
-- they are not zero, the microseconds.
pub record Moment : Type 0 where
  pub year : ℕ
  pub month : ℕ
  pub day : ℕ
  pub hours : ℕ
  pub minutes : ℕ
  pub rest : Text

unfoldable pub moment_eq : Moment → Moment → Bool
moment_eq a b =
    a.year == b.year
    && a.month == b.month
    && a.day == b.day
    && a.hours == b.hours
    && a.minutes == b.minutes
    && text_eq a.rest b.rest

-- `isoformat()`
unfoldable pub iso : Moment → Text
iso t = date_string t.year t.month t.day ++ (b'T' ∷ (hh_mm t.hours t.minutes ++ t.rest))

-- A summary as the service keeps it.
pub record Summary : Type 0 where
  pub date : Text
  pub first_clock_in : Option Moment
  pub last_clock_out : Option Moment
  pub status : AttendanceStatus
  pub leave_type : Option Text
  pub remark : Option Text
  pub overtime_hours : Option Num
  pub late_leave_reason : Option Text

abbrev pub iso? : Option Moment → Option Text
iso? none = none
iso? (some t) = some (iso t)

-- The summary as the client receives it.
unfoldable pub summary_entry : Summary → DailyAttendanceSummary
summary_entry s = record {
  date = s.date;
  first_clock_in = iso? s.first_clock_in;
  last_clock_out = iso? s.last_clock_out;
  status = s.status;
  leave_type = s.leave_type;
  remark = s.remark;
  overtime_hours = s.overtime_hours;
  late_leave_reason = s.late_leave_reason;
}

-- A `time` of day, and as the employee list writes it.
pub record ShiftEnd : Type 0 where
  pub hours : ℕ
  pub minutes : ℕ
  pub seconds : ℕ

unfoldable pub shift_text : ShiftEnd → Text
shift_text e = hh_mm e.hours e.minutes ++ (b':' ∷ two_digits e.seconds)

-- `clock_out <= employee.shift_end_time`, the seconds of the clock-out dropped.
abbrev pub leaves_in_time : Moment → ShiftEnd → Bool
leaves_in_time t e =
    leb (t.hours * 3600 + t.minutes * 60) (e.hours * 3600 + e.minutes * 60 + e.seconds)

-- The tests on the two punches and the reason, from `first_clock_in is None` on.
unfoldable pub punches_need_reason : Option Moment → Option Moment → ShiftEnd → Option Text → Bool
punches_need_reason none last e reason = false
punches_need_reason (some first) none e reason = false
punches_need_reason (some first) (some last) e reason =
    if moment_eq first last
    then false
    else if leaves_in_time last e
    then false
    else not (truthy? reason)

-- `s.leave_type and s.leave_type not in required_leave_types`
abbrev pub leave_exempts : Option Text → List Text → Bool
leave_exempts none required = false
leave_exempts (some s) required = truthy? (some s) && not (includes s required)

abbrev pub required_kind : DayKind → Bool
required_kind workday = true
required_kind makeup_workday = true
required_kind _ = false

-- The loop body: the summary's date is among the missing ones.
unfoldable pub misses_reason : DayKind → List Text → ShiftEnd → Summary → Bool
misses_reason kind required e s =
    if not (required_kind kind)
    then false
    else if leave_exempts s.leave_type required
    then false
    else punches_need_reason s.first_clock_in s.last_clock_out e s.late_leave_reason
