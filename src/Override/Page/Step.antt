-- ===== src/Override/Page/Step.antt =====
-- The events of the monthly override page, guarded as its controls are
-- (frontend/src/app/dashboard/monthly-override/page.tsx).
use pwa_attendance_record_sy.Prelude.{
  ℕ, Bool, false, not, ◌&&◌, ◌||◌, List, [], ◌∷◌, Option, none, some, if◌then◌else◌, any,
}
use pwa_attendance_record_sy.Text.{Text, truthy?, text_eq}
use pwa_attendance_record_sy.Dates.Months.{previous_month, next_month}
use pwa_attendance_record_sy.Types.{Employee, MyProfile, SubmissionStatus}
use pwa_attendance_record_sy.Override.Edit.{Edit, apply_edit}
use pwa_attendance_record_sy.Override.Page.{
  Page, Query, Request, is_hr_plus, page_locked, target_emp_id, start_load, query_of, LoadResult,
  finish_load, handle_save, save_failed, save_done, perform_submit, SubmitResult, finish_submit,
  handle_submit_month,
}

pub data Event : Type 0 where
  -- the user's
  edit : Text → Edit → Event
  select_department select_employee : Text → Event
  go_previous go_next save_click submit_click : Event
  warning_proceed warning_back close_overtime_modal close_late_reason_modal : Event
  -- the effect that loads the page's month, and what requests bring back
  load_effect : Event
  load_done : LoadResult → Event
  stored : Query → Event
  not_stored : Event
  reload_done : ℕ → LoadResult → Event
  submit_done : List Text → SubmitResult → Event
  employees_done : List Employee → Event
  profile_done : MyProfile → Event
  lock_done : Bool → Event
  required_done : List Text → Event
  status_done : Option SubmissionStatus → Event

abbrev quiet : Page → Page × Option Request
quiet p = (p, none)

-- The day has inputs: the table is shown, and the row is editable under the month-end lock.
unfoldable pub has_inputs : Page → Text → Bool
has_inputs p date =
    not p.is_loading
    && not (page_locked p)
    && any (λ row. text_eq row.date date && row.is_editable) p.rows

abbrev pub go_to : ℕ × ℕ → Page → Page
go_to (y, m) p = record p { year = y; month = m; message = none }

unfoldable pub step : Page → Event → Page × Option Request
unfolding has_inputs start_load query_of finish_load save_failed save_done finish_submit
step p (edit date e) =
    quiet (if has_inputs p date then record p { rows = apply_edit date e p.rows } else p)
step p (select_department d) =
    quiet (if is_hr_plus p then record p { selected_department = d; selected_emp_id = [] } else p)
step p (select_employee id) = quiet (if is_hr_plus p then record p { selected_emp_id = id } else p)
step p go_previous = quiet (go_to (previous_month (p.year, p.month)) p)
step p go_next = quiet (go_to (next_month (p.year, p.month)) p)
step p save_click = if p.is_saving || page_locked p then quiet p else handle_save p
step p submit_click =
    if p.pending_submit || not (truthy? (target_emp_id p)) || page_locked p
    then quiet p
    else handle_submit_month p
step p warning_proceed = if p.warning_open then perform_submit p else quiet p
step p warning_back = quiet (record p { warning_open = false })
step p close_overtime_modal = quiet (record p { overtime_modal_open = false })
step p close_late_reason_modal =
    quiet (record p { late_reason_modal_open = false; backend_late_reason_dates = none })
step p load_effect = start_load (query_of p) p
step p (load_done r) = quiet (finish_load r p)
step p (stored q) = start_load q p
step p not_stored = quiet (save_failed p)
step p (reload_done count r) = quiet (save_done count r p)
step p (submit_done known r) = quiet (finish_submit known r p)
step p (employees_done es) = quiet (record p { employees = es })
step p (profile_done m) = quiet (record p { profile = some m })
step p (lock_done l) = quiet (record p { override_locked = l })
step p (required_done ts) = quiet (record p { required_leave_types = ts })
step p (status_done s) = quiet (record p { submission_status = s })

-- The page after a list of events, the first one first.
unfoldable pub run : Page → List Event → Page
run p [] = p
run p (e ∷ es) = run (step p e).0 es
