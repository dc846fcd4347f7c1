-- ===== src/Override.antt =====
-- frontend/src/app/dashboard/monthly-override/page.tsx: the rows of the monthly override page and
-- the rules on a row.
pub mod Gate
pub mod Edit
pub mod Save
pub mod Page
pub mod Status
pub mod Choices
pub mod Dialogs
pub mod Saved
pub mod View
use pwa_attendance_record_sy.Prelude.{
  ℕ, Bool, true, false, not, ◌&&◌, ◌||◌, List, [], ◌∷◌, map, Option, none, some, ltb, if◌then◌else◌,
  length, or_else, is_some, field_of, maybe_field,
}
use pwa_attendance_record_sy.Text.{Text, codes, text_lt, text_eq?, truthy, truthy?, includes, trim}
use pwa_attendance_record_sy.Text.Decimal.{hh_mm}
use pwa_attendance_record_sy.Text.Dict
use pwa_attendance_record_sy.Text.Numbers.{Num}
use pwa_attendance_record_sy.Dates.{parse_clock}
use pwa_attendance_record_sy.DayKinds.{
  DayKind, workday, makeup_workday, national_holiday, rest_day, regular_leave, WorkdayInfo, Zone,
  derive_day_kind_from_workday,
}
use pwa_attendance_record_sy.Types.{
  AttendanceStatus, normal, late, early_leave, late_and_early_leave, abnormal, absent, leave,
  DailyAttendanceSummary,
}

-- `extractTime`
unfoldable pub extract_time : Option Text → Text
extract_time none = []
extract_time (some []) = []
extract_time (some (c ∷ iso)) = elim (parse_clock (c ∷ iso)) [
  | none ↦ codes "NaN:NaN"
  | some (h, m) ↦ hh_mm h m
]

-- `isSinglePunch`
unfoldable pub is_single_punch : DailyAttendanceSummary → Bool
is_single_punch summary =
    is_some summary.first_clock_in && text_eq? summary.first_clock_in summary.last_clock_out

-- The row of a day without a summary has the status "".
pub record DayRow : Type 0 where
  pub date : Text
  pub weekday_zh : Text
  pub is_holiday : Bool
  pub description : Text
  pub is_makeup_workday : Bool
  pub day_kind : DayKind
  pub clock_in : Text
  pub clock_out : Text
  pub status : Option AttendanceStatus
  pub is_editable : Bool
  pub leave_type : Option Text
  pub remark : Option Text
  pub overtime_hours : Option Num
  pub late_leave_reason : Option Text

-- `rowNeedsPunchForOvertime`
unfoldable pub row_needs_punch_for_overtime : DayRow → Bool
row_needs_punch_for_overtime row =
    row.is_editable
    && is_some row.overtime_hours
    && (not (truthy (trim row.clock_in)) || not (truthy (trim row.clock_out)))

-- The kind is WORKDAY or MAKEUP_WORKDAY.
unfoldable pub is_workday_kind : DayKind → Bool
is_workday_kind workday = true
is_workday_kind makeup_workday = true
is_workday_kind _ = false

-- The leave type exempts the row: there is one, and it is not among those that still require.
unfoldable pub exempt_leave : Option Text → List Text → Bool
exempt_leave none required = false
exempt_leave (some s) required = truthy s && not (includes s required)

-- `rowNeedsLateLeaveReason` from `const out` on.
unfoldable pub late_without_reason : Text → Text → Option Text → Bool
late_without_reason out shift_end reason =
    if not (truthy out) || ltb (length out) 5
    then false
    else if not (text_lt shift_end out)
    then false
    else not (truthy? reason)

-- `rowNeedsLateLeaveReason`
unfoldable pub row_needs_late_leave_reason : DayRow → Option Text → List Text → Bool
row_needs_late_leave_reason row shift_end required =
    if not row.is_editable || not (truthy? shift_end)
    then false
    else if not (is_workday_kind row.day_kind)
    then false
    else if exempt_leave row.leave_type required
    then false
    else late_without_reason (trim row.clock_out) (or_else shift_end []) row.late_leave_reason

-- `TARDY_STATUSES` and `ABNORMAL_STATUSES`
unfoldable pub is_tardy : AttendanceStatus → Bool
is_tardy late = true
is_tardy early_leave = true
is_tardy late_and_early_leave = true
is_tardy _ = false

unfoldable pub is_abnormal : AttendanceStatus → Bool
unfolding is_tardy
is_abnormal absent = true
is_abnormal s = is_tardy s

abbrev pub has_status : (AttendanceStatus → Bool) → Option AttendanceStatus → Bool
has_status p none = false
has_status p (some s) = p s

-- The class names of a row, in the order of the branches of `getRowClass`.
pub data RowClass : Type 0 where
  overtime_error sunday saturday_open saturday_closed holiday tardy makeup plain : RowClass

-- `getRowClass`
unfoldable pub get_row_class : DayRow → RowClass
get_row_class row = if row_needs_punch_for_overtime row then overtime_error else elim row.day_kind [
  | regular_leave ↦ sunday
  | rest_day ↦ if row.is_editable then saturday_open else saturday_closed
  | _ ↦
      if row.is_holiday && not row.is_makeup_workday
      then holiday
      else if has_status is_tardy row.status
      then tardy
      else if row.is_makeup_workday
      then makeup
      else plain
]

-- The editability matrix of `fetchData`.
unfoldable pub is_editable_kind : Bool → DayKind → Bool
is_editable_kind is_hr_plus regular_leave = false
is_editable_kind is_hr_plus rest_day = is_hr_plus
is_editable_kind is_hr_plus national_holiday = false
is_editable_kind is_hr_plus _ = true

-- The loop that fills `summaryMap`.
unfoldable pub index_summaries :
    List (Text × DailyAttendanceSummary)
    → List DailyAttendanceSummary
    → List (Text × DailyAttendanceSummary)
index_summaries m [] = m
index_summaries m (s ∷ rest) = index_summaries (Dict.put s.date s m) rest

abbrev pub shown_clock_out : Option DailyAttendanceSummary → Text
shown_clock_out none = []
shown_clock_out (some s) = if is_single_punch s then [] else extract_time s.last_clock_out

-- The row that `fetchData` builds for a day.
unfoldable pub build_row : Zone → Bool → WorkdayInfo → Option DailyAttendanceSummary → DayRow
build_row z is_hr_plus day summary =
    let kind = derive_day_kind_from_workday z day in
    record {
      date = day.date;
      weekday_zh = day.weekday_zh;
      is_holiday = day.is_holiday;
      description = day.description;
      is_makeup_workday = day.is_makeup_workday;
      day_kind = kind;
      clock_in = extract_time (maybe_field (λ s. s.first_clock_in) summary);
      clock_out = shown_clock_out summary;
      status = field_of (λ s. s.status) summary;
      is_editable = is_editable_kind is_hr_plus kind;
      leave_type = maybe_field (λ s. s.leave_type) summary;
      remark = maybe_field (λ s. s.remark) summary;
      overtime_hours = maybe_field (λ s. s.overtime_hours) summary;
      late_leave_reason = maybe_field (λ s. s.late_leave_reason) summary;
    }

-- `builtRows`
unfoldable pub build_rows :
    Zone → Bool → List WorkdayInfo → List DailyAttendanceSummary → List DayRow
build_rows z is_hr_plus days summaries =
    let m = index_summaries [] summaries in
    map (λ day. build_row z is_hr_plus day (Dict.get day.date m)) days
