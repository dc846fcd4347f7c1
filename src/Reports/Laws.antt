-- ===== src/Reports/Laws.antt =====
-- What the report and the export ask the service for (frontend/src/app/reports/page.tsx).
use pwa_attendance_record_sy.Prelude.{
  ◌≡◌, refl, ◌∙◌, Bool, true, false, not, ◌&&◌, ◌||◌, [], ◌∷◌, ◌++◌, none, some, arith, any,
  all-append, field_of, Bool-cases, inl, inr, if◌then◌else◌,
}
use pwa_attendance_record_sy.Text.{Text, codes, text_eq, truthy, or_null}
use pwa_attendance_record_sy.Text.Dict
use pwa_attendance_record_sy.Types.{Employee}
use pwa_attendance_record_sy.Reports.{
  Params, filter_text, Filters, DailyReport, put_if, clear_stale, report_params, download_name,
  selected_emp, Asked, as_hrm, as_file,
}
use pwa_attendance_record_sy.Export.Laws.{Without, build_export_filename-Without}
use pwa_attendance_record_sy.Export.{is_invalid}
use pwa_attendance_record_sy.Text.{is_space}

-- The selected employee and the selected department, if any, are listed.
abbrev pub is_listed : Filters → Bool
is_listed f =
    (not (truthy f.selected_employee)
      || any (λ (e : Employee). text_eq e.emp_id f.selected_employee) f.employees)
    && (not (truthy f.department)
        || any (λ (e : Employee). text_eq e.department f.department) f.employees)

-- A text that is kept where it is empty or listed
kept_or_cleared :
    (p : Text → Bool) (s : Text)
    → let t = if truthy s && not (p s) then [] else s in (not (truthy t) || p t) ≡ true
kept_or_cleared p s = elim (Bool-cases (truthy s && not (p s))) [
  | inl e ↦ rw e refl
  | inr e ↦ rw e (ground arith)
]

kept :
    (s : Text) (listed : Bool)
    → (not (truthy s) || listed) ≡ true
    → (if truthy s && not listed then [] else s) ≡ s
kept s listed h = ground arith

settled : (f : Filters) → is_listed (clear_stale f) ≡ true
unfolding clear_stale
settled f = ground (
  arith,
  kept_or_cleared (λ s. any (λ (e : Employee). text_eq e.emp_id s) f.employees) f.selected_employee,
  kept_or_cleared (λ s. any (λ (e : Employee). text_eq e.department s) f.employees) f.department,
)

unchanged : (f : Filters) → is_listed f ≡ true → clear_stale f ≡ f
unfolding clear_stale
unchanged f h =
    let employee =
      kept f.selected_employee
        (any (λ (e : Employee). text_eq e.emp_id f.selected_employee) f.employees) (ground arith) in
    let department =
      kept f.department (any (λ (e : Employee). text_eq e.department f.department) f.employees)
        (ground arith) in
    λ i. record f { selected_employee = employee i; department = department i }

-- After the effect on the lists, what is selected is listed, and the effect changes nothing where
-- this is so already: it settles at once.
pub clear_stale-is_listed :
    (f : Filters)
    → (is_listed (clear_stale f) ≡ true) × (clear_stale (clear_stale f) ≡ clear_stale f)
clear_stale-is_listed f = (settled f, unchanged (clear_stale f) (settled f))

get-put_if :
    (j : Text) (b : Bool) (k v : Text) (ps : Params)
    → Dict.get j (put_if b k v ps) ≡ (if text_eq k j && b then some v else Dict.get j ps)
get-put_if j true k v ps = ground (arith, Dict.get-put k j v ps)
get-put_if j false k v ps = ground arith

or_null_if : (s : Text) → (if truthy s then some s else none) ≡ or_null s
or_null_if [] = refl
or_null_if (c ∷ s) = refl

-- What the parameters of the report hold under a name
get-report_params :
    (j : Text) (is_hr : Bool) (p : DailyReport)
    → let f = p.filters in
      Dict.get j (report_params is_hr p) ≡ (
        if text_eq (codes "include_terminated") j && (is_hr && f.show_terminated)
        then some (codes "true")
        else if text_eq (codes "submission_filter") j && is_hr
        then some (filter_text f.submission_filter)
        else if text_eq (codes "status") j && truthy p.status_filter
        then some p.status_filter
        else if text_eq (codes "emp_id") j && truthy f.selected_employee
        then some f.selected_employee
        else if text_eq (codes "department") j && truthy f.department
        then some f.department
        else Dict.get j ((codes "start_date", f.start_date) ∷ (codes "end_date", f.end_date) ∷ []))
unfolding report_params
get-report_params j is_hr p =
    let f = p.filters in
    let dates = (codes "start_date", f.start_date) ∷ (codes "end_date", f.end_date) ∷ [] in
    let one = put_if (truthy f.department) (codes "department") f.department dates in
    let two = put_if (truthy f.selected_employee) (codes "emp_id") f.selected_employee one in
    let three = put_if (truthy p.status_filter) (codes "status") p.status_filter two in
    let four = put_if is_hr (codes "submission_filter") (filter_text f.submission_filter) three in
    rw
      (
        get-put_if j (is_hr && f.show_terminated) (codes "include_terminated") (codes "true") four,
        get-put_if j is_hr (codes "submission_filter") (filter_text f.submission_filter) three,
        get-put_if j (truthy p.status_filter) (codes "status") p.status_filter two,
        get-put_if j (truthy f.selected_employee) (codes "emp_id") f.selected_employee one,
        get-put_if j (truthy f.department) (codes "department") f.department dates,
      )
      refl

-- The report asks for the two dates, and for a department, an employee and a status where one is
-- chosen; it names a filter by submission only for HR, and the resigned employees only where HR
-- asks for them.
pub report_params-get :
    (is_hr : Bool) (p : DailyReport)
    → let f = p.filters in
      let ps = report_params is_hr p in
      (Dict.get (codes "start_date") ps ≡ some f.start_date)
      × (Dict.get (codes "end_date") ps ≡ some f.end_date)
      × (Dict.get (codes "department") ps ≡ or_null f.department)
      × (Dict.get (codes "emp_id") ps ≡ or_null f.selected_employee)
      × (Dict.get (codes "status") ps ≡ or_null p.status_filter)
      × (Dict.get (codes "submission_filter") ps
          ≡ (if is_hr then some (filter_text f.submission_filter) else none))
      × (Dict.get (codes "include_terminated") ps
          ≡ (if is_hr && f.show_terminated then some (codes "true") else none))
unfolding Dict.get text_eq
report_params-get is_hr p =
    let f = p.filters in
    (
      get-report_params (codes "start_date") is_hr p,
      get-report_params (codes "end_date") is_hr p,
      get-report_params (codes "department") is_hr p ∙ or_null_if f.department,
      get-report_params (codes "emp_id") is_hr p ∙ or_null_if f.selected_employee,
      get-report_params (codes "status") is_hr p ∙ or_null_if p.status_filter,
      get-report_params (codes "submission_filter") is_hr p,
      get-report_params (codes "include_terminated") is_hr p,
    )

append-Without :
    (s t : Text) → Without is_invalid s → Without is_invalid t → Without is_invalid (s ++ t)
append-Without s t h k = ground (arith, all-append (λ c. not (is_invalid c)) s t)

hrm_parts :
    Without is_invalid (codes "hrm_export_")
    × Without is_invalid (codes "_")
    × Without is_invalid (codes ".xlsx")
unfolding is_invalid is_space
hrm_parts = (refl, refl, refl)

-- Every export, in each format, is saved under a name without white space and without any of
-- / \ : * ? " < > |, whatever the employee and the department are called, where the dates have none.
pub download_name-Without :
    (a : Asked) (f : Filters)
    → Without is_invalid f.start_date
    → Without is_invalid f.end_date
    → Without is_invalid (download_name a f)
unfolding download_name
download_name-Without as_hrm f h k =
    let (title, bar, ending) = hrm_parts in
    append-Without (codes "hrm_export_")
      (f.start_date ++ (codes "_" ++ (f.end_date ++ codes ".xlsx"))) title
      (append-Without f.start_date (codes "_" ++ (f.end_date ++ codes ".xlsx")) h (
        append-Without (codes "_") (f.end_date ++ codes ".xlsx") bar
          (append-Without f.end_date (codes ".xlsx") k ending)))
download_name-Without (as_file format) f h k =
    build_export_filename-Without
      (record {
        format = format;
        start_date = f.start_date;
        end_date = f.end_date;
        emp_id = or_null f.selected_employee;
        emp_name = field_of (λ (e : Employee). e.name) (selected_emp f);
        department = or_null f.department;
      })
      h k
