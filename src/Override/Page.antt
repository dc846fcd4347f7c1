-- ===== src/Override/Page.antt =====
-- The state of the monthly override page and its handlers
-- (frontend/src/app/dashboard/monthly-override/page.tsx). What an awaited request brings back is
-- an event; what a handler sends is a request.
pub mod Step
pub mod Rows
pub mod Requests
use pwa_attendance_record_sy.Prelude.{
  ℕ, Bool, true, false, not, ◌&&◌, ◌||◌, List, [], ◌∷◌, map, Option, none, some, ltb, if◌then◌else◌,
  length, filter, find, any, or_else, or_maybe, field_of, maybe_field,
}
use pwa_attendance_record_sy.Text.{Text, truthy, truthy?, or_null, slice, text_eq}
use pwa_attendance_record_sy.DayKinds.{WorkdayInfo, Zone}
use pwa_attendance_record_sy.Types.{
  Role, employee, Employee, AuthUser, MyProfile, BulkOverrideEntry, BulkOverrideRequest,
  DailyAttendanceSummary, SubmissionStatus, is_hr_role,
}
use pwa_attendance_record_sy.Override.{
  DayRow, build_rows, row_needs_late_leave_reason, has_status, is_abnormal,
}
use pwa_attendance_record_sy.Override.Save.{changed_entries, overtime_punch_error_dates}

-- The texts of the message bar, before translation.
pub data Note : Type 0 where
  no_changes save_error select_employee_first submit_success submit_error : Note
  save_success : ℕ → Note
  raw : Text → Note

pub data Message : Type 0 where
  success error info : Note → Message

-- The state variables of the component, those of its hooks included.
pub record Page : Type 0 where
  pub user : Option AuthUser
  pub profile : Option MyProfile
  pub zone : Zone
  pub year : ℕ
  pub month : ℕ
  pub rows : List DayRow
  pub original_rows : List DayRow
  pub employees : List Employee
  pub selected_department : Text
  pub selected_emp_id : Text
  pub is_loading : Bool
  pub is_saving : Bool
  pub message : Option Message
  pub required_leave_types : List Text
  pub submission_status : Option SubmissionStatus
  pub override_locked : Bool
  pub warning_open : Bool
  pub overtime_modal_open : Bool
  pub late_reason_modal_open : Bool
  pub backend_late_reason_dates : Option (List Text)
  pub pending_submit : Bool

-- What `fetchData` asks for.
pub record Query : Type 0 where
  pub year : ℕ
  pub month : ℕ
  pub emp_id : Option Text

pub data Request : Type 0 where
  load : Query → Request
  override_bulk : BulkOverrideRequest → Request
  submit : Text → ℕ → ℕ → Request

unfoldable pub role_of : Page → Role
role_of p = or_else (field_of (λ (u : AuthUser). u.role) p.user) employee

unfoldable pub is_hr_plus : Page → Bool
unfolding role_of
is_hr_plus p = is_hr_role (role_of p)

unfoldable pub page_locked : Page → Bool
page_locked p = p.override_locked && not (is_hr_plus p)

-- `isHrPlus && selectedEmpId`
unfoldable pub chosen_emp_id : Page → Option Text
chosen_emp_id p = if is_hr_plus p then or_null p.selected_emp_id else none

unfoldable pub user_emp_id : Page → Option Text
user_emp_id p = field_of (λ (u : AuthUser). u.emp_id) p.user

-- `targetEmpId`
unfoldable pub target_emp_id : Page → Option Text
unfolding user_emp_id
target_emp_id p =
    if is_hr_plus p
    then or_maybe (or_null p.selected_emp_id) (maybe_field or_null (user_emp_id p))
    else user_emp_id p

-- `targetShiftEnd`
unfoldable pub target_shift_end : Page → Option Text
target_shift_end p =
    let chosen =
      field_of (λ (e : Employee). e.shift_end_time)
        (find (λ e. text_eq e.emp_id p.selected_emp_id) p.employees) in
    let own = maybe_field (λ (m : MyProfile). m.shift_end_time) p.profile in
    let given = if is_hr_plus p && truthy p.selected_emp_id then chosen else own in
    if truthy? given then field_of (slice 0 5) given else none

-- `lateReasonMissingDates`
unfoldable pub late_reason_missing_dates : Page → List Text
unfolding target_shift_end
late_reason_missing_dates p =
    map (λ row. row.date)
      (filter (λ row. row_needs_late_leave_reason row (target_shift_end p) p.required_leave_types)
        p.rows)

-- `abnormalDays`, by date
unfoldable pub abnormal_dates : Page → List Text
abnormal_dates p = map (λ row. row.date) (filter (λ row. has_status is_abnormal row.status) p.rows)

-- A list is empty.
abbrev pub is_empty {ℓ} : {A : Type ℓ} → List A → Bool
is_empty [] = true
is_empty (x ∷ xs) = false

-- `fetchData` up to its first `await`
unfoldable pub start_load : Query → Page → Page × Option Request
start_load q p = (record p { is_loading = true; message = none }, some (load q))

-- The query of the page's own render.
unfoldable pub query_of : Page → Query
unfolding chosen_emp_id
query_of p = record { year = p.year; month = p.month; emp_id = chosen_emp_id p }

pub data LoadResult : Type 0 where
  loaded : List WorkdayInfo → List DailyAttendanceSummary → LoadResult
  failed : Text → LoadResult

-- `fetchData` from its `await` on
unfoldable pub finish_load : LoadResult → Page → Page
finish_load (loaded days summaries) p =
    let built = build_rows p.zone (is_hr_plus p) days summaries in
    record p { rows = built; original_rows = built; is_loading = false }
finish_load (failed text) p = record p { message = some (error (raw text)); is_loading = false }

unfoldable pub save_body : Page → List BulkOverrideEntry → BulkOverrideRequest
unfolding chosen_emp_id
save_body p entries = record {
  year = p.year;
  month = p.month;
  emp_id = chosen_emp_id p;
  entries = entries;
}

-- `handleSave` from `changedEntries` on. A fault of the filter ends the call with nothing done.
unfoldable pub send_changes : Option (List BulkOverrideEntry) → Page → Page × Option Request
unfolding save_body
send_changes none p = (p, none)
send_changes (some []) p = (record p { message = some (info no_changes) }, none)
send_changes (some (e ∷ es)) p =
    (record p { is_saving = true; message = none }, some (override_bulk (save_body p (e ∷ es))))

-- `handleSave` up to its request
unfoldable pub handle_save : Page → Page × Option Request
handle_save p =
    if is_empty (overtime_punch_error_dates p.rows)
    then send_changes (changed_entries p.rows p.original_rows) p
    else (record p { overtime_modal_open = true }, none)

-- `handleSave` when the request has failed, and when the load behind a stored save has ended.
unfoldable pub save_failed : Page → Page
save_failed p = record p { message = some (error save_error); is_saving = false }

unfoldable pub save_done : ℕ → LoadResult → Page → Page
unfolding finish_load
save_done count r p =
    let q = finish_load r p in
    record q { message = some (success (save_success count)); is_saving = false }

-- `performSubmit` up to its request
unfoldable pub perform_submit : Page → Page × Option Request
perform_submit p = elim (maybe_field or_null (target_emp_id p)) [
  | none ↦ (record p { message = some (error select_employee_first) }, none)
  | some id ↦ (record p { pending_submit = true; message = none }, some (submit id p.year p.month))
]

-- How `performSubmit` ends: both requests answered; the API error "late_reason_missing", with the
-- dates if it lists them; another API error with a code; any other error.
pub data SubmitResult : Type 0 where
  accepted : SubmissionStatus → SubmitResult
  reason_missing : Option (List Text) → SubmitResult
  coded : Text → SubmitResult
  uncoded : SubmitResult

-- `performSubmit` from its request on; `known` is the `lateReasonMissingDates` of its render.
unfoldable pub finish_submit : List Text → SubmitResult → Page → Page
finish_submit known (accepted s) p = record p {
  submission_status = some s;
  message = some (success submit_success);
  pending_submit = false;
  warning_open = false;
}
finish_submit known (reason_missing dates) p = record p {
  backend_late_reason_dates = some (or_else dates known);
  late_reason_modal_open = true;
  pending_submit = false;
  warning_open = false;
}
finish_submit known (coded text) p = record p {
  message = some (error (raw text));
  pending_submit = false;
  warning_open = false;
}
finish_submit known uncoded p = record p {
  message = some (error submit_error);
  pending_submit = false;
  warning_open = false;
}

-- `handleSubmitMonth`
unfoldable pub handle_submit_month : Page → Page × Option Request
unfolding perform_submit
handle_submit_month p =
    if not (truthy? (target_emp_id p))
    then (record p { message = some (error select_employee_first) }, none)
    else if not (is_empty (late_reason_missing_dates p))
    then (record p { backend_late_reason_dates = none; late_reason_modal_open = true }, none)
    else if is_empty (abnormal_dates p)
    then perform_submit p
    else (record p { warning_open = true }, none)
