-- ===== src/Override/Dialogs.antt =====
-- The dialogs of the monthly override page: what a click and a key call
-- (frontend/src/components/WarningModal.tsx, OvertimePunchModal.tsx, LateReasonMissingModal.tsx), what
-- the page makes of the calls (frontend/src/app/dashboard/monthly-override/page.tsx), and the inputs
-- of frontend/src/components/RemarkCell.tsx. A click is given by the element that it hits.
pub mod Laws
pub mod Labels
use pwa_attendance_record_sy.Prelude.{
  Bool, true, false, ◌&&◌, List, [], ◌∷◌, ◌++◌, map, Option, none, some, if◌then◌else◌, filter,
  or_else,
}
use pwa_attendance_record_sy.Text.{Text, codes, text_eq, or_null}
use pwa_attendance_record_sy.Types.{
  AttendanceStatus, late, early_leave, late_and_early_leave, absent,
}
use pwa_attendance_record_sy.Override.{DayRow, is_abnormal, has_status}
use pwa_attendance_record_sy.Override.Edit.{Edit, leave_type, remark}
use pwa_attendance_record_sy.Override.Page.{Page, Request, late_reason_missing_dates}
use pwa_attendance_record_sy.Override.Page.Step.{
  Event, warning_proceed, warning_back, close_overtime_modal, close_late_reason_modal, step,
}

-- The `onClick` of an element: a call of a property, or `stopPropagation`.
pub data Handler {ℓ} (A : Type ℓ) : Type ℓ where
  calls : A → Handler A
  stops : Handler A

-- The calls of a click, by the handlers from the element that it hits outwards.
unfoldable pub bubble {ℓ} : {A : Type ℓ} → List (Handler A) → List A
bubble [] = []
bubble (calls a ∷ hs) = a ∷ bubble hs
bubble (stops ∷ hs) = []

pub data WarningCall : Type 0 where
  back_to_edit proceed : WarningCall

-- What a click on the warning hits: the space around the panel, the panel, a button.
pub data WarningElement : Type 0 where
  around panel back_button proceed_button : WarningElement

unfoldable pub warning_path : WarningElement → List (Handler WarningCall)
warning_path around = calls back_to_edit ∷ []
warning_path panel = stops ∷ calls back_to_edit ∷ []
warning_path back_button = calls back_to_edit ∷ stops ∷ calls back_to_edit ∷ []
warning_path proceed_button = calls proceed ∷ stops ∷ calls back_to_edit ∷ []

unfoldable pub warning_click : Bool → WarningElement → List WarningCall
unfolding bubble warning_path
warning_click is_open e = if is_open then bubble (warning_path e) else []

-- `onKeyDown`, listening while the dialog is open
unfoldable pub warning_key : Bool → Text → List WarningCall
warning_key is_open key = if is_open && text_eq key (codes "Escape") then back_to_edit ∷ [] else []

pub data NoticeCall : Type 0 where
  close : NoticeCall

pub data NoticeElement : Type 0 where
  around panel close_button : NoticeElement

-- The two dialogs that only inform have the same elements.
unfoldable pub notice_path : NoticeElement → List (Handler NoticeCall)
notice_path around = calls close ∷ []
notice_path panel = stops ∷ calls close ∷ []
notice_path close_button = calls close ∷ stops ∷ calls close ∷ []

unfoldable pub overtime_click : Bool → NoticeElement → List NoticeCall
unfolding bubble notice_path
overtime_click is_open e = if is_open then bubble (notice_path e) else []

unfoldable pub overtime_key : Bool → Text → List NoticeCall
overtime_key is_open key = if is_open && text_eq key (codes "Escape") then close ∷ [] else []

unfoldable pub late_reason_click : Bool → NoticeElement → List NoticeCall
unfolding bubble notice_path
late_reason_click is_open e = if is_open then bubble (notice_path e) else []

unfoldable pub late_reason_key : Bool → Text → List NoticeCall
late_reason_key is_open key = if is_open && text_eq key (codes "Escape") then close ∷ [] else []

-- The properties that the page gives to its dialogs
unfoldable pub on_warning : WarningCall → Event
on_warning back_to_edit = warning_back
on_warning proceed = warning_proceed

unfoldable pub on_overtime : NoticeCall → Event
on_overtime close = close_overtime_modal

unfoldable pub on_late_reason : NoticeCall → Event
on_late_reason close = close_late_reason_modal

-- What the user does: press a key, which every open dialog hears, or click on an element of a dialog.
pub data Gesture : Type 0 where
  press : Text → Gesture
  at_warning : WarningElement → Gesture
  at_overtime at_late_reason : NoticeElement → Gesture

unfoldable pub events_of : Page → Gesture → List Event
unfolding warning_key overtime_key late_reason_key warning_click overtime_click late_reason_click
    on_warning on_overtime on_late_reason
events_of p (press key) =
    map on_warning (warning_key p.warning_open key)
    ++ (map on_overtime (overtime_key p.overtime_modal_open key)
        ++ map on_late_reason (late_reason_key p.late_reason_modal_open key))
events_of p (at_warning e) = map on_warning (warning_click p.warning_open e)
events_of p (at_overtime e) = map on_overtime (overtime_click p.overtime_modal_open e)
events_of p (at_late_reason e) = map on_late_reason (late_reason_click p.late_reason_modal_open e)

abbrev pub request_list : Option Request → List Request
request_list none = []
request_list (some r) = r ∷ []

-- The page after a list of events, with the requests that they send.
unfoldable pub perform : Page → List Event → Page × List Request
perform p [] = (p, [])
perform p (e ∷ es) =
    let rest = perform (step p e).0 es in (rest.0, request_list (step p e).1 ++ rest.1)

unfoldable pub gesture : Page → Gesture → Page × List Request
unfolding events_of perform
gesture p g = perform p (events_of p g)

unfoldable pub gestures : Page → List Gesture → Page × List Request
unfolding gesture
gestures p [] = (p, [])
gestures p (g ∷ gs) = let rest = gestures (gesture p g).0 gs in (rest.0, (gesture p g).1 ++ rest.1)

-- `AbnormalDay`; the page casts the status of a row to the type of the dialog.
pub record AbnormalDay : Type 0 where
  pub date : Text
  pub status : Option AttendanceStatus
  pub leave_type : Option Text
  pub remark : Option Text

-- `abnormalDays`
unfoldable pub abnormal_days : Page → List AbnormalDay
abnormal_days p =
    map
      (λ (row : DayRow). record {
        date = row.date;
        status = row.status;
        leave_type = row.leave_type;
        remark = row.remark;
      })
      (filter (λ row. has_status is_abnormal row.status) p.rows)

-- `STATUS_I18N_KEY[day.status]`: undefined for a status that the table does not have
unfoldable pub status_key : Option AttendanceStatus → Option Text
status_key (some late) = some (codes "status.late")
status_key (some early_leave) = some (codes "status.early_leave")
status_key (some late_and_early_leave) = some (codes "status.late_and_early_leave")
status_key (some absent) = some (codes "status.absent")
status_key _ = none

-- What the warning lists: the date, the key of the status, the leave type and the remark if any.
pub record Line : Type 0 where
  pub date : Text
  pub status : Option Text
  pub leave_type : Option Text
  pub remark : Option Text

unfoldable pub warning_lines : Bool → List AbnormalDay → List Line
unfolding status_key
warning_lines is_open days =
    if is_open
    then map
        (λ (day : AbnormalDay). record {
          date = day.date;
          status = status_key day.status;
          leave_type = or_null (or_else day.leave_type []);
          remark = or_null (or_else day.remark []);
        })
        days
    else []

-- The dates that the dialog on late-leave reasons lists
unfoldable pub listed_reason_dates : Page → List Text
listed_reason_dates p =
    if p.late_reason_modal_open
    then or_else p.backend_late_reason_dates (late_reason_missing_dates p)
    else []

-- `handleLeaveTypeChange` and `handleRemarkChange` of RemarkCell
unfoldable pub leave_type_edit : Text → Edit
leave_type_edit v = leave_type (or_null v)

unfoldable pub remark_edit : Text → Edit
remark_edit v = remark v

-- The values that its two inputs show
unfoldable pub leave_type_value : DayRow → Text
leave_type_value row = or_else row.leave_type []

unfoldable pub remark_value : DayRow → Text
remark_value row = or_else row.remark []
