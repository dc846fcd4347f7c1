-- ===== src/Reports/Effects.antt =====
-- The effects of the daily report (frontend/src/app/reports/page.tsx, DailyReportSection): what is
-- asked for after each change of the filters or of the lists.
pub mod Laws
use pwa_attendance_record_sy.Prelude.{
  ◌≡◌, refl, sym, ap, ◌∙◌, Bool, true, false, not, ◌&&◌, ◌||◌, List, [], ◌∷◌, ◌++◌, Option, none,
  some, arith, if◌then◌else◌, Bool-cases, inl, inr,
}
use pwa_attendance_record_sy.Text.{Text, text_eq}
use pwa_attendance_record_sy.Text.Laws.{text_eq_iff}
use pwa_attendance_record_sy.Types.{
  Employee, ReportRow, SubmissionFilter, every, submitted, unsubmitted,
}
use pwa_attendance_record_sy.Reports.{
  Params, Filters, DailyReport, employees_query, employees_done, clear_stale, report_params,
  fetch_report, report_done, report_refused,
}

pub data Sent : Type 0 where
  employees report : Params → Sent

pub data Event : Type 0 where
  start_date end_date department employee status : Text → Event
  submission : SubmissionFilter → Event
  terminated : Bool → Event
  -- what the requests bring back
  listed : List Employee → Event
  reported : List ReportRow → Event
  refused : Text → Event

-- The update of the state for an event
unfoldable pub apply : Event → DailyReport → DailyReport
apply (start_date s) p = record p { filters = record p.filters { start_date = s } }
apply (end_date s) p = record p { filters = record p.filters { end_date = s } }
apply (department s) p = record p { filters = record p.filters { department = s } }
apply (employee s) p = record p { filters = record p.filters { selected_employee = s } }
apply (status s) p = record p { status_filter = s }
apply (submission f) p = record p { filters = record p.filters { submission_filter = f } }
apply (terminated b) p = record p { filters = record p.filters { show_terminated = b } }
apply (listed es) p = record p { filters = employees_done es p.filters }
apply (reported rows) p = report_done rows p
apply (refused text) p = report_refused text p

unfoldable pub same_filter : SubmissionFilter → SubmissionFilter → Bool
same_filter every every = true
same_filter submitted submitted = true
same_filter unsubmitted unsubmitted = true
same_filter _ _ = false

abbrev pub same_bool : Bool → Bool → Bool
same_bool true b = b
same_bool false b = not b

-- None of the values that `fetchReport` is made from has changed between two renders.
unfoldable pub same_deps : DailyReport → DailyReport → Bool
unfolding same_filter
same_deps p q =
    text_eq p.filters.start_date q.filters.start_date
    && text_eq p.filters.end_date q.filters.end_date
    && text_eq p.filters.department q.filters.department
    && text_eq p.filters.selected_employee q.filters.selected_employee
    && text_eq p.status_filter q.status_filter
    && same_filter p.filters.submission_filter q.filters.submission_filter
    && same_bool p.filters.show_terminated q.filters.show_terminated

-- The effect of `fetchReport` for a render q after a render p
unfoldable pub report_effect : Bool → DailyReport → DailyReport → DailyReport × List Sent
unfolding same_deps
report_effect is_hr p q =
    if same_deps p q
    then (q, [])
    else ((fetch_report is_hr q).0, report (fetch_report is_hr q).1 ∷ [])

-- The effect of `fetchEmployeesAndDepts`
unfoldable pub employees_effect : Bool → DailyReport → DailyReport → List Sent
employees_effect is_hr p q =
    if same_bool p.filters.show_terminated q.filters.show_terminated
    then []
    else employees (employees_query is_hr q.filters) ∷ []

-- The effects of a render q after p. The effect that clears a stale selection changes nothing when
-- it runs again; where it changes a filter, there is another render with its own effects.
unfoldable pub settle : Bool → DailyReport → DailyReport → DailyReport × List Sent
unfolding report_effect employees_effect
settle is_hr p q =
    let first = report_effect is_hr p q in
    let cleared = record first.0 { filters = clear_stale first.0.filters } in
    let second = report_effect is_hr first.0 cleared in
    (second.0, employees_effect is_hr p q ++ (first.1 ++ second.1))

unfoldable pub step : Bool → DailyReport → Event → DailyReport × List Sent
unfolding apply settle
step is_hr p e = settle is_hr p (apply e p)

-- A run, with all that has been sent
unfoldable pub run : Bool → DailyReport → List Sent → List Event → DailyReport × List Sent
run is_hr p log [] = (p, log)
run is_hr p log (e ∷ es) = run is_hr (step is_hr p e).0 (log ++ (step is_hr p e).1) es

-- The section as it is opened, with its first requests
unfoldable pub opened : Bool → DailyReport → DailyReport × List Sent
opened is_hr p = (
  (fetch_report is_hr p).0,
  employees (employees_query is_hr p.filters) ∷ report (fetch_report is_hr p).1 ∷ [],
)
