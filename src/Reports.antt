-- ===== src/Reports.antt =====
-- frontend/src/app/reports/page.tsx: the section of the daily report and the section of exports.
-- What the user does, the effects and what the requests bring back are events.
pub mod Options
pub mod Effects
pub mod Sections
pub mod View
pub mod Laws
use pwa_attendance_record_sy.Prelude.{
  ℕ, Bool, true, false, not, ◌&&◌, List, [], ◌∷◌, ◌++◌, map, Option, none, some, any, find, is_some,
  field_of, if◌then◌else◌,
}
use pwa_attendance_record_sy.Text.{Text, codes, text_eq, truthy, or_null}
use pwa_attendance_record_sy.Text.Dict
use pwa_attendance_record_sy.Types.{
  Role, admin, is_hr_role, is_manager_role, Employee, ReportRow, SubmissionFilter, every, submitted,
  unsubmitted,
}
use pwa_attendance_record_sy.Export.{
  ExportFormat, csv, xlsx, json, ExportParams, build_export_filename,
}
use pwa_attendance_record_sy.Reports.Options.{departments_of}

-- Query parameters, as `URLSearchParams` holds them
abbrev pub Params : Type 0
Params = List (Text × Text)

unfoldable pub filter_text : SubmissionFilter → Text
filter_text every = codes "all"
filter_text submitted = codes "submitted"
filter_text unsubmitted = codes "unsubmitted"

-- What a section lets the user choose, and the two lists to choose from
pub record Filters : Type 0 where
  pub start_date : Text
  pub end_date : Text
  pub department : Text
  pub selected_employee : Text
  pub submission_filter : SubmissionFilter
  pub show_terminated : Bool
  pub departments : List Text
  pub employees : List Employee

-- `DailyReportSection`
pub record DailyReport : Type 0 where
  pub filters : Filters
  pub status_filter : Text
  pub data_rows : List ReportRow
  pub is_loading : Bool
  pub error : Option Text

-- `params.set(k, v)` under a condition
abbrev pub put_if : Bool → Text → Text → Params → Params
put_if true k v ps = Dict.put k v ps
put_if false k v ps = ps

-- The request of `fetchEmployeesAndDepts`: the resigned ones too, where HR asks for them
unfoldable pub employees_query : Bool → Filters → Params
employees_query is_hr f =
    put_if (is_hr && f.show_terminated) (codes "include_terminated") (codes "true") []

unfoldable pub employees_done : List Employee → Filters → Filters
employees_done es f = record f { employees = es; departments = departments_of es }

-- The effect that clears a selection which is no longer listed
unfoldable pub clear_stale : Filters → Filters
clear_stale f =
    let listed = any (λ (e : Employee). text_eq e.emp_id f.selected_employee) f.employees in
    let peopled = any (λ (e : Employee). text_eq e.department f.department) f.employees in
    record f {
      selected_employee =
          if truthy f.selected_employee && not listed then [] else f.selected_employee;
      department = if truthy f.department && not peopled then [] else f.department;
    }

-- The parameters of `fetchReport`
unfoldable pub report_params : Bool → DailyReport → Params
report_params is_hr p =
    let f = p.filters in
    put_if (is_hr && f.show_terminated) (codes "include_terminated") (codes "true") (
      put_if is_hr (codes "submission_filter") (filter_text f.submission_filter) (
        put_if (truthy p.status_filter) (codes "status") p.status_filter (
          put_if (truthy f.selected_employee) (codes "emp_id") f.selected_employee (
            put_if (truthy f.department) (codes "department") f.department
              ((codes "start_date", f.start_date) ∷ (codes "end_date", f.end_date) ∷ [])))))

-- `fetchReport`, and what its request brings back
unfoldable pub fetch_report : Bool → DailyReport → DailyReport × Params
fetch_report is_hr p = (record p { is_loading = true; error = none }, report_params is_hr p)

unfoldable pub report_done : List ReportRow → DailyReport → DailyReport
report_done result p = record p { data_rows = result; is_loading = false }

unfoldable pub report_refused : Text → DailyReport → DailyReport
report_refused text p = record p { error = some text; is_loading = false }

-- The format that an export is asked for
pub data Asked : Type 0 where
  as_file : ExportFormat → Asked
  as_hrm : Asked

unfoldable pub asked_text : Asked → Text
asked_text (as_file csv) = codes "csv"
asked_text (as_file xlsx) = codes "xlsx"
asked_text (as_file json) = codes "json"
asked_text as_hrm = codes "hrm"

-- The parameters of `doExport`
unfoldable pub export_params : Asked → Filters → Params
export_params a f = Dict.put (codes "submission_filter") (filter_text f.submission_filter) (
    put_if f.show_terminated (codes "include_terminated") (codes "true") (
      put_if (truthy f.selected_employee) (codes "emp_id") f.selected_employee (
        put_if (truthy f.department) (codes "department") f.department (
          (codes "format", asked_text a)
          ∷ (codes "start_date", f.start_date)
          ∷ (codes "end_date", f.end_date)
          ∷ []))))

-- `selectedEmp`
unfoldable pub selected_emp : Filters → Option Employee
selected_emp f =
    if truthy f.selected_employee
    then find (λ e. text_eq e.emp_id f.selected_employee) f.employees
    else none

-- The name that `doExport` saves the file under
unfoldable pub download_name : Asked → Filters → Text
download_name as_hrm f =
    codes "hrm_export_" ++ (f.start_date ++ (codes "_" ++ (f.end_date ++ codes ".xlsx")))
download_name (as_file format) f = build_export_filename (record {
  format = format;
  start_date = f.start_date;
  end_date = f.end_date;
  emp_id = or_null f.selected_employee;
  emp_name = field_of (λ (e : Employee). e.name) (selected_emp f);
  department = or_null f.department;
})

-- The sections that `ReportsPage` shows to a role: the report, the exports, the generation
unfoldable pub can_access : Role → Bool
can_access r = is_manager_role r

unfoldable pub can_export : Role → Bool
can_export r = is_hr_role r

unfoldable pub can_generate : Role → Bool
can_generate admin = true
can_generate _ = false
