-- ===== src/Reports/View/Offered.antt =====
-- The values of the selects of the daily report (frontend/src/app/reports/page.tsx).
use pwa_attendance_record_sy.Prelude.{
  ◌≡◌, refl, ap, ◌∙◌, Bool, true, not, ◌||◌, List, [], ◌∷◌, map, arith, any,
}
use pwa_attendance_record_sy.Text.{Text, text_eq, truthy, includes}
use pwa_attendance_record_sy.Text.Laws.{text_eq_iff}
use pwa_attendance_record_sy.Types.{Employee}
use pwa_attendance_record_sy.Labels.{Label, plain}
use pwa_attendance_record_sy.Reports.{
  Filters, DailyReport, clear_stale, employees_done, fetch_report, report_done, report_refused,
}
use pwa_attendance_record_sy.Reports.Options.{departments_of, departments_of-IsDistinct}
use pwa_attendance_record_sy.Reports.Laws.{is_listed, clear_stale-is_listed}
use pwa_attendance_record_sy.Reports.Effects.{
  Sent, Event, apply, report_effect, settle, step, run, opened, listed,
}
use pwa_attendance_record_sy.Reports.View.{
  Select, department_select, employee_option, employee_select, report_view,
}

-- The value of the select is that of an option.
abbrev pub is_offered : Select → Bool
is_offered s = any (λ (o : Text × List Label). text_eq o.0 s.value) s.options

-- The departments to choose from are those of the listed employees.
abbrev pub InStep : Filters → Type 0
InStep f = f.departments ≡ departments_of f.employees

offered_or : (v : Text) (b : Bool) → (not (truthy v) || b) ≡ true → (text_eq [] v || b) ≡ true
unfolding text_eq
offered_or [] b h = refl
offered_or (c ∷ v) b h = h

any-departments :
    (v : Text) (ds : List Text)
    → any (λ (o : Text × List Label). text_eq o.0 v) (map (λ d. (d, plain d ∷ [])) ds)
      ≡ includes v ds
unfolding includes
any-departments v [] = refl
any-departments v (d ∷ ds) = ground (arith, text_eq_iff d v, text_eq_iff v d, any-departments v ds)

any-employees :
    (v : Text) (es : List Employee)
    → any (λ (o : Text × List Label). text_eq o.0 v) (map employee_option es)
      ≡ any (λ (e : Employee). text_eq e.emp_id v) es
unfolding employee_option
any-employees v [] = refl
any-employees v (e ∷ es) = ap (text_eq e.emp_id v ||◌) (any-employees v es)

selects_offer :
    (f : Filters)
    → InStep f
    → is_listed f ≡ true
    → (is_offered (department_select f) ≡ true) × (is_offered (employee_select f) ≡ true)
unfolding department_select employee_select
selects_offer f s h =
    let peopled = any (λ (e : Employee). text_eq e.department f.department) f.employees in
    let chosen = any (λ (e : Employee). text_eq e.emp_id f.selected_employee) f.employees in
    let same : includes f.department f.departments ≡ peopled =
      ap (includes f.department) s ∙ (departments_of-IsDistinct f.employees f.department).1 in
    (
      rw (any-departments f.department f.departments, same)
          (offered_or f.department peopled (ground arith)),
      rw (any-employees f.selected_employee f.employees)
          (offered_or f.selected_employee chosen (ground arith)),
    )

apply-InStep : (e : Event) (p : DailyReport) → InStep p.filters → InStep (apply e p).filters
unfolding apply employees_done report_done report_refused
apply-InStep (listed es) p s = refl
apply-InStep _ p s = s

report_effect-filters :
    (is_hr : Bool) (p q : DailyReport) → (report_effect is_hr p q).0.filters ≡ q.filters
unfolding report_effect fetch_report
report_effect-filters is_hr p q = ground arith

step-filters :
    (is_hr : Bool) (p : DailyReport) (e : Event)
    → (step is_hr p e).0.filters ≡ clear_stale (apply e p).filters
unfolding step settle
step-filters is_hr p e =
    let first = report_effect is_hr p (apply e p) in
    report_effect-filters is_hr first.0 (record first.0 { filters = clear_stale first.0.filters })
    ∙ ap clear_stale (report_effect-filters is_hr p (apply e p))

clear_stale-InStep : (f : Filters) → InStep f → InStep (clear_stale f)
unfolding clear_stale
clear_stale-InStep f s = s

abbrev Settled : DailyReport → Type 0
Settled p = InStep p.filters × (is_listed p.filters ≡ true)

step-Settled : (is_hr : Bool) (p : DailyReport) (e : Event) → Settled p → Settled (step is_hr p e).0
step-Settled is_hr p e h =
    let f = (apply e p).filters in
    rw (step-filters is_hr p e)
      (clear_stale-InStep f (apply-InStep e p h.0), (clear_stale-is_listed f).0)

run-Settled :
    (is_hr : Bool) (p : DailyReport) (log : List Sent) (es : List Event)
    → Settled p
    → Settled (run is_hr p log es).0
unfolding run
run-Settled is_hr p log [] h = h
run-Settled is_hr p log (e ∷ es) h =
    run-Settled is_hr (step is_hr p e).0 _ es (step-Settled is_hr p e h)

-- Opened with departments that are those of the listed employees and with selections that are listed,
-- the report's selects of a department and of an employee show, after every event, a value that they
-- offer.
pub run-is_offered :
    (space : Text) (is_hr : Bool) (p : DailyReport) (es : List Event)
    → InStep p.filters
    → is_listed p.filters ≡ true
    → let start = opened is_hr p in
      let v = report_view space is_hr (run is_hr start.0 start.1 es).0 in
      (is_offered v.department ≡ true) × (is_offered v.employee ≡ true)
unfolding report_view
run-is_offered space is_hr p es s h =
    let start = opened is_hr p in
    let q = (run is_hr start.0 start.1 es).0 in
    let (s', h') = run-Settled is_hr start.0 start.1 es (unfold opened fetch_report in (s, h)) in
    selects_offer q.filters s' h'
