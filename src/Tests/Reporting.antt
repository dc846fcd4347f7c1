-- ===== src/Tests/Reporting.antt =====
-- The reports page at concrete filters (frontend/src/app/reports/page.tsx).
use pwa_attendance_record_sy.Prelude.{List, ◌≡◌, refl, true, false, [], ◌∷◌, none, some}
use pwa_attendance_record_sy.Text.{codes, text_eq, text_lt, includes}
use pwa_attendance_record_sy.Types.{Employee, employee, manager, unsubmitted}
use pwa_attendance_record_sy.Reports.Options.{unique, insert_text, sort_texts, departments_of}
use pwa_attendance_record_sy.Reports.{Filters, DailyReport, clear_stale, report_params}
use pwa_attendance_record_sy.Reports.Effects as Effects
use pwa_attendance_record_sy.Reports.Effects.Laws.{last_report, run-last_report}
use pwa_attendance_record_sy.Reports.View.{report_view}
use pwa_attendance_record_sy.Reports.View.Offered.{is_offered, run-is_offered}

abbrev ann : Employee
ann = record {
  emp_id = codes "EMP01";
  name = codes "Ann";
  department = codes "Sales";
  role = manager;
  shift_start_time = codes "09:00:00";
  shift_end_time = codes "17:30:00";
  terminated_at = none;
  reports_to = none;
  rank = none;
}

abbrev bob : Employee
bob = record {
  emp_id = codes "EMP02";
  name = codes "Bob";
  department = codes "Labs";
  role = employee;
  shift_start_time = codes "09:00:00";
  shift_end_time = codes "18:00:00";
  terminated_at = none;
  reports_to = none;
  rank = none;
}

abbrev cyd : Employee
cyd = record {
  emp_id = codes "EMP03";
  name = codes "Cyd";
  department = codes "Sales";
  role = employee;
  shift_start_time = codes "09:00:00";
  shift_end_time = codes "18:00:00";
  terminated_at = none;
  reports_to = none;
  rank = none;
}

-- A selection of someone who is not listed any more
abbrev filters : Filters
filters = record {
  start_date = codes "2026-07-01";
  end_date = codes "2026-07-31";
  department = codes "Labs";
  selected_employee = codes "EMP09";
  submission_filter = unsubmitted;
  show_terminated = true;
  departments = [];
  employees = ann ∷ bob ∷ cyd ∷ [];
}

departments_listed : departments_of filters.employees ≡ codes "Labs" ∷ codes "Sales" ∷ []
unfolding departments_of unique sort_texts insert_text includes text_eq text_lt
departments_listed = refl

employee_cleared : (clear_stale filters).selected_employee ≡ []
unfolding clear_stale text_eq
employee_cleared = refl

abbrev daily : DailyReport
daily = record {
  filters = filters;
  status_filter = codes "LATE";
  data_rows = [];
  is_loading = false;
  error = none;
}

-- The department changes, and the list that comes back has lost the selected employee.
abbrev daily_events : List Effects.Event
daily_events =
    Effects.department (codes "Labs")
    ∷ Effects.terminated true
    ∷ Effects.listed (ann ∷ bob ∷ [])
    ∷ Effects.reported []
    ∷ []

run-last_report_example :
    let start = Effects.opened true daily in
    let r = Effects.run true start.0 start.1 daily_events in
    last_report none r.1 ≡ some (report_params true r.0)
run-last_report_example = run-last_report true daily daily_events

-- The section as the page opens it
abbrev fresh : DailyReport
fresh = record daily {
  filters = record filters { department = []; selected_employee = []; employees = [] };
  status_filter = [];
}

-- Bob and his department are chosen, and the next list has lost him.
abbrev resigned_events : List Effects.Event
resigned_events =
    Effects.listed (ann ∷ bob ∷ cyd ∷ [])
    ∷ Effects.department (codes "Labs")
    ∷ Effects.employee (codes "EMP02")
    ∷ Effects.listed (ann ∷ cyd ∷ [])
    ∷ []

run-is_offered_example :
    let start = Effects.opened true fresh in
    let v = report_view (codes " ") true (Effects.run true start.0 start.1 resigned_events).0 in
    (is_offered v.department ≡ true) × (is_offered v.employee ≡ true)
unfolding departments_of unique sort_texts
run-is_offered_example = run-is_offered (codes " ") true fresh resigned_events refl refl
