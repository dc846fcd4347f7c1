-- ===== src/Tests/Dialogs.antt =====
-- The dialogs of the monthly override page at concrete states
-- (frontend/src/components/WarningModal.tsx, OvertimePunchModal.tsx, LateReasonMissingModal.tsx).
use pwa_attendance_record_sy.Prelude.{◌≡◌, refl, true, false, List, [], ◌∷◌, some, All}
use pwa_attendance_record_sy.Text.{codes, text_eq}
use pwa_attendance_record_sy.Types.{absent, is_hr_role}
use pwa_attendance_record_sy.Override.{is_abnormal, row_needs_late_leave_reason}
use pwa_attendance_record_sy.Override.Page.{
  Page, is_empty, target_emp_id, is_hr_plus, page_locked, late_reason_missing_dates, abnormal_dates,
  handle_submit_month,
}
use pwa_attendance_record_sy.Override.Page.Step.{submit_click, step}
use pwa_attendance_record_sy.Override.Dialogs as Dialogs
use pwa_attendance_record_sy.Override.Dialogs.{
  Gesture, press, at_warning, at_late_reason, proceed_button, gesture, gestures, warning_lines,
  abnormal_days,
}
use pwa_attendance_record_sy.Override.Dialogs.Laws.{IsDismissed, IsClear, gestures-IsDismissed}
use pwa_attendance_record_sy.Override.Dialogs.Labels.{has_label, submit_click-has_label}
use pwa_attendance_record_sy.Tests.Monthly.{page, row_of}

-- A month with a day of absence
abbrev absent_page : Page
absent_page = record page {
  rows = record (row_of (codes "2026-07-01")) { status = some absent } ∷ [];
}

abbrev warned : Page
warned = record absent_page { warning_open = true; late_reason_modal_open = true }

abbrev dismissals : List Gesture
dismissals = at_warning Dialogs.panel ∷ at_late_reason Dialogs.close_button ∷ []

gestures-IsDismissed_example :
    let q = (gestures warned dismissals).0 in
    IsDismissed warned q
    × ((gestures warned dismissals).1 ≡ [])
    × IsClear (gesture q (press (codes "Escape"))).0
gestures-IsDismissed_example = gestures-IsDismissed warned dismissals refl

submit_click-has_label_example :
    let q = (step absent_page submit_click).0 in
    let lines = warning_lines q.warning_open (abnormal_days q) in
    (is_empty lines ≡ false) × All (λ l. has_label l ≡ true) lines
unfolding step target_emp_id is_hr_plus is_hr_role page_locked handle_submit_month
    late_reason_missing_dates row_needs_late_leave_reason abnormal_dates is_abnormal
submit_click-has_label_example = submit_click-has_label absent_page refl refl

-- Submit opens the warning; a click on the panel does nothing, and one on its Back button closes it.
dialogs_model : Unit {0}
unfolding step target_emp_id is_hr_plus is_hr_role page_locked handle_submit_month
    late_reason_missing_dates row_needs_late_leave_reason abnormal_dates is_abnormal gestures
    text_eq
dialogs_model = tt
  where
    shown : Page
    shown = (step absent_page submit_click).0

    t1 :
        (gestures shown (at_warning Dialogs.panel ∷ press (codes "Enter") ∷ [])).0.warning_open
        ≡ true
    t1 = refl

    t2 : (gestures shown (at_warning Dialogs.back_button ∷ [])).0.warning_open ≡ false
    t2 = refl
