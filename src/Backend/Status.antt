-- ===== src/Backend/Status.antt =====
-- backend/app/services/reporting_service.py: the status of a day, by the times of its punches.
use pwa_attendance_record_sy.Prelude.{
  ℕ, ◌+◌, ◌*◌, ◌%◌, Bool, true, false, ◌&&◌, Option, none, some, ◌==◌, ltb, if◌then◌else◌,
}
use pwa_attendance_record_sy.Text.{Text, truthy?}
use pwa_attendance_record_sy.DayKinds.{DayKind, workday, makeup_workday}
use pwa_attendance_record_sy.Types.{
  AttendanceStatus, normal, late, early_leave, late_and_early_leave, abnormal, leave,
}

-- A time of day; `micros` are the microseconds since the minute.
pub record Clock : Type 0 where
  pub hours : ℕ
  pub minutes : ℕ
  pub micros : ℕ

abbrev pub minute : ℕ
minute = 60_000_000

-- The microseconds since midnight
unfoldable pub value : Clock → ℕ
value c = (c.hours * 60 + c.minutes) * minute + c.micros

-- An employee's shift, in microseconds since midnight
pub record Shift : Type 0 where
  pub start : ℕ
  pub finish : ℕ

-- `_NON_WORKING_DAY_KINDS`
unfoldable pub is_non_working : DayKind → Bool
is_non_working workday = false
is_non_working makeup_workday = false
is_non_working _ = true

-- The time of `combine(date, shift_start) + timedelta(minutes=grace)`: past midnight it starts anew.
unfoldable pub grace_deadline : ℕ → ℕ → ℕ
grace_deadline start grace = (start + grace * minute) % (1440 * minute)

-- The end of `calculate_status`, by the two tests
unfoldable pub tardiness : Bool → Bool → AttendanceStatus
tardiness is_late is_early =
    if is_late && is_early
    then late_and_early_leave
    else if is_late
    then late
    else if is_early
    then early_leave
    else normal

-- `calculate_status` from the two punches of a working day on
unfoldable pub status_of_both : Shift → ℕ → Clock → Clock → AttendanceStatus
unfolding grace_deadline tardiness value
status_of_both e grace first last =
    let is_late = ltb (grace_deadline e.start grace) (value first) in
    if value first == value last
    then (if is_late then late else normal)
    else tardiness is_late (ltb (value last) e.finish)

unfoldable pub status_of_punches :
    Shift → ℕ → DayKind → Option Clock → Option Clock → Option AttendanceStatus
unfolding is_non_working status_of_both
status_of_punches e grace kind none none = none
status_of_punches e grace kind (some first) (some last) =
    some (if is_non_working kind then normal else status_of_both e grace first last)
status_of_punches e grace kind _ _ = some (if is_non_working kind then normal else abnormal)

unfoldable pub calculate_status :
    Shift → ℕ → DayKind → Option Text → Option Clock → Option Clock → Option AttendanceStatus
unfolding status_of_punches
calculate_status e grace kind leave_type first last =
    if truthy? leave_type then some leave else status_of_punches e grace kind first last
