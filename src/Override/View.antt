-- ===== src/Override/View.antt =====
-- What the monthly override page shows (frontend/src/app/dashboard/monthly-override/page.tsx): the
-- cells of a row with their inputs and options, the buttons and the notes. Colours and fixed texts are
-- left out; a translated text is its key.
pub mod Accepted
use pwa_attendance_record_sy.Prelude.{
  ℕ, ◌/◌, ◌%◌, ◌+◌, Bool, true, false, not, ◌&&◌, ◌||◌, List, [], ◌∷◌, ◌++◌, map, Option, none,
  some, ◌==◌, leb, if◌then◌else◌, is_some, or_else, length, field_of,
}
use pwa_attendance_record_sy.Text.{Text, codes, text_eq, text_eq?, truthy, truthy?, trim, includes}
use pwa_attendance_record_sy.Text.Decimal.{to_decimal, two_digits}
use pwa_attendance_record_sy.Text.Numbers.{Num, tenths, nan}
use pwa_attendance_record_sy.Dates.{LocalTime}
use pwa_attendance_record_sy.DayKinds.{
  DayKind, workday, makeup_workday, national_holiday, rest_day, regular_leave,
}
use pwa_attendance_record_sy.Types.{
  AttendanceStatus, normal, late, early_leave, late_and_early_leave, abnormal, absent, leave,
  SubmissionStatus,
}
use pwa_attendance_record_sy.Labels.{Label, plain, key}
use pwa_attendance_record_sy.Override.{
  DayRow, RowClass, get_row_class, row_needs_late_leave_reason, row_needs_punch_for_overtime,
}
use pwa_attendance_record_sy.Override.Edit.{
  Edit, clock_in, clock_out, remark, overtime, late_reason, leave_type,
}
use pwa_attendance_record_sy.Override.Choices.{format_submitted_at}
use pwa_attendance_record_sy.Override.Page.{
  Page, page_locked, is_hr_plus, target_emp_id, target_shift_end,
}

-- `StatusBadge`; a status without a label of its own is shown as it is sent.
unfoldable pub status_badge : Option AttendanceStatus → Option Label
status_badge none = none
status_badge (some normal) = some (key (codes "attendance.statusNormal"))
status_badge (some late) = some (key (codes "attendance.statusLate"))
status_badge (some early_leave) = some (key (codes "attendance.statusEarlyLeave"))
status_badge (some late_and_early_leave) = some (key (codes "attendance.statusLateAndEarlyLeave"))
status_badge (some abnormal) = some (key (codes "attendance.statusAbnormal"))
status_badge (some absent) = some (plain (codes "ABSENT"))
status_badge (some leave) = some (plain (codes "LEAVE"))

-- `DayTypeBadge`
unfoldable pub day_type_badge : DayRow → Label
day_type_badge row = elim row.day_kind [
  | makeup_workday ↦ key (codes "monthlyOverride.makeupWorkday")
  | regular_leave ↦ key (codes "monthlyOverride.regularLeave")
  | rest_day ↦ key (codes "monthlyOverride.restDay")
  | national_holiday ↦
      if truthy row.description
      then plain row.description
      else key (codes "monthlyOverride.nationalHoliday")
  | workday ↦ key (codes "monthlyOverride.workday")
]

-- A cell: an input with its value and whether it is marked as wrong, or a text.
pub data Cell : Type 0 where
  input : Text → Bool → Cell
  shown : Label → Cell

-- `value || "-"`
abbrev pub or_dash : Text → Label
or_dash [] = plain (codes "-")
or_dash (c ∷ s) = plain (c ∷ s)

-- A cell by the three cases of `editableNow` and `lockedReadOnly`
abbrev pub cell : Bool → Bool → Cell → Label → Cell
cell is_editable locked i label =
    if is_editable && not locked
    then i
    else if is_editable && locked
    then shown label
    else shown (plain (codes "-"))

-- `String(h)` of a number of hours
unfoldable pub hours_text : Num → Text
unfolding to_decimal
hours_text nan = codes "NaN"
hours_text (tenths n) =
    to_decimal (n / 10) ++ (if (n % 10) == 0 then [] else b'.' ∷ (b'0' + n % 10) ∷ [])

-- `OVERTIME_OPTIONS`, in tenths
abbrev pub overtime_options : List Num
overtime_options = map tenths (10 ∷ 15 ∷ 20 ∷ 25 ∷ 30 ∷ 35 ∷ 40 ∷ 45 ∷ 50 ∷ 55 ∷ 60 ∷ [])

abbrev pub assigned : Text
assigned = codes "ASSIGNED_OVERTIME"

abbrev pub for_personal_reasons : Text
for_personal_reasons = codes "PERSONAL"

-- The read-only text of a reason
unfoldable pub reason_label : Option Text → Label
reason_label r =
    if text_eq? r (some assigned)
    then key (codes "monthlyOverride.lateReasonAssignedOvertimeShort")
    else if text_eq? r (some for_personal_reasons)
    then key (codes "monthlyOverride.lateReasonPersonalShort")
    else plain (codes "-")

unfoldable pub overtime_text : Option Num → Text
unfolding hours_text
overtime_text none = []
overtime_text (some h) = hours_text h

-- A row of the table. `row_class` is none where the row has the class of a missing reason; the hints
-- stand beside the inputs of the reason and the overtime.
pub record RowView : Type 0 where
  pub date : Text
  pub weekday_zh : Text
  pub badge : Label
  pub row_class : Option RowClass
  pub clock_in : Cell
  pub clock_out : Cell
  pub late_reason : Cell
  pub leave_type : Cell
  pub remark : Cell
  pub overtime : Cell
  pub status : Option Label
  pub reason_hint : Bool
  pub overtime_hint : Bool

-- `row.overtimeHours != null && time.trim() === ""`
abbrev pub wants_time : DayRow → Text → Bool
wants_time row time = is_some row.overtime_hours && not (truthy (trim time))

unfoldable pub row_view : Page → DayRow → RowView
unfolding status_badge day_type_badge reason_label overtime_text
row_view p row =
    let locked = page_locked p in
    let needs_reason =
      row_needs_late_leave_reason row (target_shift_end p) p.required_leave_types in
    let editable_now = row.is_editable && not locked in
    record {
      date = row.date;
      weekday_zh = row.weekday_zh;
      badge = day_type_badge row;
      row_class = if needs_reason then none else some (get_row_class row);
      clock_in =
          cell row.is_editable locked (input row.clock_in (wants_time row row.clock_in))
            (or_dash row.clock_in);
      clock_out =
          cell row.is_editable locked (input row.clock_out (wants_time row row.clock_out))
            (or_dash row.clock_out);
      late_reason =
          cell row.is_editable locked (input (or_else row.late_leave_reason []) needs_reason)
            (reason_label row.late_leave_reason);
      leave_type =
          cell row.is_editable locked (input (or_else row.leave_type []) false)
            (or_dash (or_else row.leave_type []));
      remark =
          cell row.is_editable locked (input (or_else row.remark []) false)
            (or_dash (or_else row.remark []));
      overtime =
          cell row.is_editable locked
            (input (overtime_text row.overtime_hours) (row_needs_punch_for_overtime row))
            (or_dash (overtime_text row.overtime_hours));
      status = status_badge row.status;
      reason_hint = editable_now && needs_reason;
      overtime_hint = editable_now && row_needs_punch_for_overtime row;
    }

-- The rows of the table; while the page loads there is none.
unfoldable pub table : Page → List RowView
unfolding row_view
table p = if p.is_loading then [] else map (row_view p) p.rows

-- `monthLabel`
unfoldable pub month_label : Page → Text
month_label p = to_decimal p.year ++ (b'-' ∷ two_digits p.month)

-- The badge of the submission: none without an employee; else whether the month is submitted, with
-- the time of it
pub data SubmissionBadge : Type 0 where
  is_submitted : Text → SubmissionBadge
  not_submitted : SubmissionBadge

-- (`at` is the time that `submitted_at` names, if any.)
unfoldable pub submission_badge : Page → Option LocalTime → Option SubmissionBadge
submission_badge p at =
    let submitted =
      or_else (field_of (λ (s : SubmissionStatus). s.submitted) p.submission_status) false in
    if not (truthy? (target_emp_id p))
    then none
    else some (if submitted then is_submitted (format_submitted_at at) else not_submitted)

-- The controls around the table: the selectors of HR, the two buttons with their labels, and the
-- banner of the lock
pub record Controls : Type 0 where
  pub has_selectors : Bool
  pub submit_enabled : Bool
  pub submit_label : Label
  pub save_enabled : Bool
  pub save_label : Label
  pub lock_banner : Bool

unfoldable pub controls : Page → Controls
controls p = record {
  has_selectors = is_hr_plus p;
  submit_enabled = not (p.pending_submit || not (truthy? (target_emp_id p)) || page_locked p);
  submit_label =
      if p.pending_submit
      then key (codes "monthlyOverride.submitting")
      else key (codes "monthlyOverride.submitMonth");
  save_enabled = not (p.is_saving || page_locked p);
  save_label =
      if p.is_saving
      then key (codes "monthlyOverride.saving")
      else key (codes "monthlyOverride.save");
  lock_banner = not p.is_loading && page_locked p;
}

-- The edits that the inputs of a row can make, for the leave types of the page: an option of a select,
-- and a text of the length that the input allows.
unfoldable pub is_offered : List Text → Edit → Bool
unfolding hours_text
is_offered leave_types (clock_in v) = true
is_offered leave_types (clock_out v) = true
is_offered leave_types (remark v) = leb (length v) 500
is_offered leave_types (overtime v) = includes v ([] ∷ map hours_text overtime_options)
is_offered leave_types (late_reason v) = includes v ([] ∷ assigned ∷ for_personal_reasons ∷ [])
is_offered leave_types (leave_type none) = true
is_offered leave_types (leave_type (some s)) = includes s leave_types
