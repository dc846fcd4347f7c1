-- ===== src/Reports/Effects/Laws.antt =====
-- What the effects of the daily report ask for follows the filters
-- (frontend/src/app/reports/page.tsx, DailyReportSection).
use pwa_attendance_record_sy.Prelude.{
  ◌≡◌, refl, sym, ap, ◌∙◌, Bool, true, false, List, [], ◌∷◌, ◌++◌, Option, none, some, arith,
  Bool-cases, inl, inr,
}
use pwa_attendance_record_sy.Text.Laws.{text_eq_iff}
use pwa_attendance_record_sy.Types.{SubmissionFilter, every, submitted, unsubmitted}
use pwa_attendance_record_sy.Reports.{Params, DailyReport, clear_stale, report_params, fetch_report}
use pwa_attendance_record_sy.Reports.Effects.{
  Sent, employees, report, Event, apply, same_filter, same_bool, same_deps, report_effect,
  employees_effect, settle, step, run, opened,
}

-- The parameters of the last report asked for
abbrev pub last_report : Option Params → List Sent → Option Params
last_report o [] = o
last_report o (employees ps ∷ log) = last_report o log
last_report o (report ps ∷ log) = last_report (some ps) log

last_report-append :
    (o : Option Params) (xs ys : List Sent)
    → last_report o (xs ++ ys) ≡ last_report (last_report o xs) ys
last_report-append o [] ys = refl
last_report-append o (employees ps ∷ xs) ys = last_report-append o xs ys
last_report-append o (report ps ∷ xs) ys = last_report-append (some ps) xs ys

same_filter_lem : (f g : SubmissionFilter) → same_filter f g ≡ true → f ≡ g
unfolding same_filter
same_filter_lem every every h = refl
same_filter_lem every submitted h = ground (arith, h)
same_filter_lem every unsubmitted h = ground (arith, h)
same_filter_lem submitted every h = ground (arith, h)
same_filter_lem submitted submitted h = refl
same_filter_lem submitted unsubmitted h = ground (arith, h)
same_filter_lem unsubmitted every h = ground (arith, h)
same_filter_lem unsubmitted submitted h = ground (arith, h)
same_filter_lem unsubmitted unsubmitted h = refl

same_bool_lem : (a b : Bool) → same_bool a b ≡ true → a ≡ b
same_bool_lem true b h = sym h
same_bool_lem false true h = ground (arith, h)
same_bool_lem false false h = refl

-- Renders with the same values ask for the same report.
same_deps-report_params :
    (is_hr : Bool) (p q : DailyReport)
    → same_deps p q ≡ true
    → report_params is_hr p ≡ report_params is_hr q
unfolding same_deps report_params
same_deps-report_params is_hr p q h =
    let a = (text_eq_iff p.filters.start_date q.filters.start_date).0 (ground (arith, h)) in
    let b = (text_eq_iff p.filters.end_date q.filters.end_date).0 (ground (arith, h)) in
    let c = (text_eq_iff p.filters.department q.filters.department).0 (ground (arith, h)) in
    let d =
      (text_eq_iff p.filters.selected_employee q.filters.selected_employee).0 (ground (arith, h)) in
    let e = (text_eq_iff p.status_filter q.status_filter).0 (ground (arith, h)) in
    let f =
      same_filter_lem p.filters.submission_filter q.filters.submission_filter (ground (arith, h)) in
    let g = same_bool_lem p.filters.show_terminated q.filters.show_terminated (ground (arith, h)) in
    simp (a, b, c, d, e, f, g)

-- After the effect the last report asked for is the render's own.
report_effect-last :
    (is_hr : Bool) (p q : DailyReport) (o : Option Params)
    → o ≡ some (report_params is_hr p)
    → last_report o (report_effect is_hr p q).1
      ≡ some (report_params is_hr (report_effect is_hr p q).0)
unfolding report_effect fetch_report
report_effect-last is_hr p q o h = elim (Bool-cases (same_deps p q)) [
  | inl e ↦ rw e (h ∙ ap some (same_deps-report_params is_hr p q e))
  | inr e ↦ rw e (unfold report_params in refl)
]

employees_effect-last :
    (is_hr : Bool) (p q : DailyReport) (o : Option Params) (xs : List Sent)
    → last_report o (employees_effect is_hr p q ++ xs) ≡ last_report o xs
unfolding employees_effect
employees_effect-last is_hr p q o xs =
    elim (Bool-cases (same_bool p.filters.show_terminated q.filters.show_terminated)) [
      | inl e ↦ rw e refl
      | inr e ↦ rw e refl
    ]

settle-last :
    (is_hr : Bool) (p q : DailyReport) (o : Option Params)
    → o ≡ some (report_params is_hr p)
    → last_report o (settle is_hr p q).1 ≡ some (report_params is_hr (settle is_hr p q).0)
unfolding settle
settle-last is_hr p q o h =
    let first = report_effect is_hr p q in
    let cleared = record first.0 { filters = clear_stale first.0.filters } in
    let second = report_effect is_hr first.0 cleared in
    employees_effect-last is_hr p q o (first.1 ++ second.1)
    ∙ last_report-append o first.1 second.1
    ∙ report_effect-last is_hr first.0 cleared (last_report o first.1)
        (report_effect-last is_hr p q o h)

run-last :
    (is_hr : Bool) (p : DailyReport) (log : List Sent) (es : List Event)
    → last_report none log ≡ some (report_params is_hr p)
    → last_report none (run is_hr p log es).1 ≡ some (report_params is_hr (run is_hr p log es).0)
unfolding run step
run-last is_hr p log [] h = h
run-last is_hr p log (e ∷ es) h =
    let r = settle is_hr p (apply e p) in
    run-last is_hr r.0 (log ++ r.1) es
      (last_report-append none log r.1 ∙ settle-last is_hr p (apply e p) (last_report none log) h)

-- Whatever the user chooses and the requests bring back, selections that are cleared because they
-- are no longer listed included: the last report that the section has asked for is the one for the
-- filters that it shows.
pub run-last_report :
    (is_hr : Bool) (p : DailyReport) (es : List Event)
    → let start = opened is_hr p in
      let r = run is_hr start.0 start.1 es in last_report none r.1 ≡ some (report_params is_hr r.0)
run-last_report is_hr p es =
    run-last is_hr (opened is_hr p).0 (opened is_hr p).1 es
      (unfold opened fetch_report report_params in refl)
