-- ===== src/Attendance/View.antt =====
-- What the attendance page shows (frontend/src/app/attendance/page.tsx). The column of the location,
-- colours and fixed texts are left out.
pub mod Dates
use pwa_attendance_record_sy.Prelude.{
  Bool, true, false, not, ◌&&◌, List, [], ◌∷◌, Option, none, some, if◌then◌else◌, is_some,
}
use pwa_attendance_record_sy.Text.{Text, text_eq?}
use pwa_attendance_record_sy.Text.Dict
use pwa_attendance_record_sy.Dates.{iso_date_only}
use pwa_attendance_record_sy.Messages.{Note}
use pwa_attendance_record_sy.Labels.{Label, locale_time, status_badge, work_mode_badge, Body, body}
use pwa_attendance_record_sy.Attendance.{AttendanceLog, AttendancePage, visible_logs}

-- The cells of a row, and whether it stands below a line
pub record LogRow : Type 0 where
  pub has_line : Bool
  pub date : Text
  pub time : Text
  pub work_mode : Label
  pub status : Option Label

-- The rows below one of the date `prev_date`, or from the first on
unfoldable pub log_rows : Text → List (Text × Text) → Option Text → List AttendanceLog → List LogRow
unfolding locale_time work_mode_badge status_badge
log_rows space summary_map prev_date [] = []
log_rows space summary_map prev_date (l ∷ logs) =
    let date = iso_date_only l.timestamp in
    let rest = log_rows space summary_map (some date) logs in
    let is_first = not (text_eq? (some date) prev_date) in
    record {
      has_line = is_first && is_some prev_date;
      date = if is_first then date else [];
      time = locale_time space l.timestamp;
      work_mode = work_mode_badge l.work_mode;
      status = if is_first then status_badge (Dict.get date summary_map) else none;
    }
    ∷ rest

pub record AttendanceView : Type 0 where
  pub start_date : Text
  pub end_date : Text
  pub error : Option Note
  pub body : Body LogRow

unfoldable pub attendance_view : Text → AttendancePage → AttendanceView
unfolding visible_logs log_rows body
attendance_view space p = record {
  start_date = p.start_date;
  end_date = p.end_date;
  error = p.error;
  body = body p.is_loading (is_some p.error) (log_rows space p.summary_map none (visible_logs p));
}
