-- ===== src/Reports/View.antt =====
-- What the reports page shows (frontend/src/app/reports/page.tsx): its filters with their options, the
-- table and the buttons. Colours and fixed texts are left out; a translated text is its key.
pub mod Offered
use pwa_attendance_record_sy.Prelude.{
  ℕ, ◌+◌, ◌%◌, Bool, true, false, not, List, [], ◌∷◌, ◌++◌, map, Option, none, some, or_else, ltb,
  if◌then◌else◌, maybe_field,
}
use pwa_attendance_record_sy.Text.{Text, codes, text_eq, truthy, truthy?}
use pwa_attendance_record_sy.Text.Decimal.{hh_mm}
use pwa_attendance_record_sy.Dates.{parse_clock}
use pwa_attendance_record_sy.Types.{
  Role, AttendanceStatus, normal, late, early_leave, late_and_early_leave, abnormal, absent, leave,
  Employee, ReportRow, SubmissionFilter, DailyAttendanceSummary,
}
use pwa_attendance_record_sy.Labels.{Label, plain, key, locale_time, Body, body}
use pwa_attendance_record_sy.Reports.{
  Filters, DailyReport, filter_text, can_access, can_export, can_generate,
}
use pwa_attendance_record_sy.Reports.Sections.{
  ExportSection, GenerateSection, Message, truncate, is_single_punch,
}

-- A select: the value that it is given, and the values and labels of its options
pub record Select : Type 0 where
  pub value : Text
  pub options : List (Text × List Label)

unfoldable pub department_select : Filters → Select
department_select f = record {
  value = f.department;
  options =
      (codes "", key (codes "reports.departmentPlaceholder") ∷ [])
      ∷ map (λ d. (d, plain d ∷ [])) f.departments;
}

unfoldable pub employee_option : Employee → Text × List Label
employee_option e = (
  e.emp_id,
  plain (e.emp_id ++ (codes " - " ++ e.name))
      ∷ (if truthy? e.terminated_at then key (codes "reports.terminatedOption") ∷ [] else []),
)

unfoldable pub employee_select : Filters → Select
unfolding employee_option
employee_select f = record {
  value = f.selected_employee;
  options =
      (codes "", key (codes "reports.employeePlaceholder") ∷ []) ∷ map employee_option f.employees;
}

unfoldable pub status_select : Text → Select
status_select value = record {
  value = value;
  options =
      (codes "", key (codes "reports.statusAll") ∷ [])
      ∷ (codes "NORMAL", key (codes "reports.statusOnTime") ∷ [])
      ∷ (codes "LATE", key (codes "reports.statusLate") ∷ [])
      ∷ (codes "EARLY_LEAVE", key (codes "reports.statusEarlyLeave") ∷ [])
      ∷ (codes "LATE_AND_EARLY_LEAVE", key (codes "reports.statusLateAndEarlyLeave") ∷ [])
      ∷ (codes "ABNORMAL", key (codes "reports.statusAbnormal") ∷ [])
      ∷ (codes "ABSENT", key (codes "reports.statusAbsent") ∷ [])
      ∷ [];
}

unfoldable pub submission_select : SubmissionFilter → Select
unfolding filter_text
submission_select f = record {
  value = filter_text f;
  options =
      (codes "all", key (codes "reports.filterAll") ∷ [])
      ∷ (codes "submitted", key (codes "reports.filterSubmitted") ∷ [])
      ∷ (codes "unsubmitted", key (codes "reports.filterUnsubmitted") ∷ [])
      ∷ [];
}

unfoldable pub format_select : Text → Select
format_select value = record {
  value = value;
  options =
      (codes "csv", plain (codes "CSV") ∷ [])
      ∷ (codes "json", plain (codes "JSON") ∷ [])
      ∷ (codes "xlsx", plain (codes "Excel") ∷ [])
      ∷ [];
}

-- The checkbox, with the key of its label
unfoldable pub terminated_box : Bool → Bool × Text
terminated_box show =
    (show, if show then codes "reports.hideTerminated" else codes "reports.showTerminated")

-- `formatTime`
unfoldable pub format_time : Text → Option Text → Option Text
unfolding locale_time
format_time space none = none
format_time space (some []) = none
format_time space (some (c ∷ iso)) = some (locale_time space (c ∷ iso))

-- `statusLabelMap`
unfoldable pub status_label : AttendanceStatus → Label
status_label normal = key (codes "reports.statusOnTime")
status_label late = key (codes "reports.statusLate")
status_label early_leave = key (codes "reports.statusEarlyLeave")
status_label late_and_early_leave = key (codes "reports.statusLateAndEarlyLeave")
status_label abnormal = key (codes "reports.statusAbnormal")
status_label absent = key (codes "reports.statusAbsent")
status_label leave = key (codes "status.leave")

abbrev pub time_label : Option Text → Label
time_label t = elim t [ none ↦ key (codes "reports.noRecord") | some s ↦ plain s ]

-- The cells of a row; a submission status is a badge, or none.
unfoldable pub row_cells : Text → ReportRow → List Label
unfolding format_time status_label truncate is_single_punch text_eq
row_cells space row =
    let s = row.summary in
    plain row.emp_id
    ∷ plain (or_else row.name (codes "-"))
    ∷ plain s.date
    ∷ time_label (format_time space s.first_clock_in)
    ∷ (if is_single_punch s.first_clock_in s.last_clock_out
        then key (codes "reports.noRecord")
        else time_label (format_time space s.last_clock_out))
    ∷ status_label s.status
    ∷ plain (or_else row.shift_time (codes "-"))
    ∷ plain (truncate 50 s.remark)
    ∷ plain (truncate 50 row.reason)
    ∷ (if not (truthy? row.submission_status)
        then plain (codes "-")
        else if text_eq (or_else row.submission_status []) (codes "submitted")
        then key (codes "reports.submitted")
        else key (codes "reports.unsubmitted"))
    ∷ []

pub record ReportView : Type 0 where
  pub dates : Text × Text
  pub department : Select
  pub employee : Select
  pub terminated : Option (Bool × Text)
  pub status : Select
  pub submission : Option Select
  pub error : Option Text
  pub body : Body (List Label)

unfoldable pub report_view : Text → Bool → DailyReport → ReportView
unfolding body row_cells
report_view space is_hr p = record {
  dates = (p.filters.start_date, p.filters.end_date);
  department = department_select p.filters;
  employee = employee_select p.filters;
  terminated = if is_hr then some (terminated_box p.filters.show_terminated) else none;
  status = status_select p.status_filter;
  submission = if is_hr then some (submission_select p.filters.submission_filter) else none;
  error = if truthy? p.error then p.error else none;
  body = body p.is_loading (truthy? p.error) (map (row_cells space) p.data_rows);
}

pub record ExportView : Type 0 where
  pub dates : Text × Text
  pub department : Select
  pub employee : Select
  pub terminated : Bool × Text
  pub submission : Select
  pub format : Select
  pub is_enabled : Bool
  pub button : Text
  pub message : Option Message

unfoldable pub export_view : ExportSection → ExportView
export_view p = record {
  dates = (p.filters.start_date, p.filters.end_date);
  department = department_select p.filters;
  employee = employee_select p.filters;
  terminated = terminated_box p.filters.show_terminated;
  submission = submission_select p.filters.submission_filter;
  format = format_select p.format;
  is_enabled = not p.is_exporting;
  button = if p.is_exporting then codes "reports.exporting" else codes "reports.export";
  message = p.message;
}

-- The date, whether the button is enabled, its key and the message
unfoldable pub generate_view : GenerateSection → Text × Bool × Text × Option Message
generate_view p = (
  p.date,
  not p.is_generating,
  if p.is_generating then codes "reports.generating" else codes "reports.generate",
  p.message,
)

-- `ReportsPage`; a visitor counts as an employee.
pub data PageView : Type 0 where
  access_denied : PageView
  sections :
      ReportView → Option ExportView → Option (Text × Bool × Text × Option Message) → PageView

unfoldable pub page_view :
    Text → Option Role → DailyReport → ExportSection → GenerateSection → PageView
unfolding can_access can_export can_generate report_view export_view generate_view
page_view space role report exports generation = elim role [
  | none ↦ access_denied
  | some r ↦
      if not (can_access r)
      then access_denied
      else sections (report_view space (can_export r) report)
          (if can_export r then some (export_view exports) else none)
          (if can_generate r then some (generate_view generation) else none)
]
