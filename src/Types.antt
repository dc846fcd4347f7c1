-- ===== src/Types.antt =====
-- frontend/src/types/index.ts: the shared types of the client. An absent field is `none`.
use pwa_attendance_record_sy.Prelude.{ℕ, Bool, true, false, List, Option}
use pwa_attendance_record_sy.Text.{Text}
use pwa_attendance_record_sy.Text.Numbers.{Num}

pub data Role : Type 0 where
  employee manager hr admin : Role

pub data WorkMode : Type 0 where
  office wfh : WorkMode

pub data AttendanceStatus : Type 0 where
  normal late early_leave late_and_early_leave abnormal absent leave : AttendanceStatus

pub data LateLeaveReason : Type 0 where
  assigned_overtime personal : LateLeaveReason

pub data SubmissionFilter : Type 0 where
  every submitted unsubmitted : SubmissionFilter

pub record Employee : Type 0 where
  pub emp_id : Text
  pub name : Text
  pub department : Text
  pub role : Role
  pub shift_start_time : Text
  pub shift_end_time : Text
  pub terminated_at : Option Text
  pub reports_to : Option Text
  pub rank : Option Text

pub record EmployeeCreate : Type 0 where
  pub emp_id : Text
  pub name : Text
  pub department : Text
  pub role : Role
  pub password : Text
  pub shift_start_time : Text
  pub shift_end_time : Text
  pub reports_to : Option Text
  pub rank : Option Text

-- The manager and the rank may be absent, null or a text.
pub record EmployeeUpdate : Type 0 where
  pub name : Option Text
  pub department : Option Text
  pub role : Option Role
  pub password : Option Text
  pub shift_start_time : Option Text
  pub shift_end_time : Option Text
  pub reports_to : Option (Option Text)
  pub rank : Option (Option Text)

pub record AuthUser : Type 0 where
  pub emp_id : Text
  pub role : Role

pub record MyProfile : Type 0 where
  pub emp_id : Text
  pub role : Role
  pub shift_end_time : Option Text

pub record PunchResponse : Type 0 where
  pub work_mode : WorkMode
  pub distance_km : Text
  pub is_low_accuracy : Bool
  pub tardiness_status : Option AttendanceStatus
  pub summary_id : Option ℕ

pub record DailyAttendanceSummary : Type 0 where
  pub date : Text
  pub first_clock_in : Option Text
  pub last_clock_out : Option Text
  pub status : AttendanceStatus
  pub leave_type : Option Text
  pub remark : Option Text
  pub overtime_hours : Option Num
  pub late_leave_reason : Option Text

-- A row of a report: a summary with the further fields that only the reports page reads
pub record ReportRow : Type 0 where
  pub emp_id : Text
  pub name : Option Text
  pub summary : DailyAttendanceSummary
  pub reason : Option Text
  pub shift_time : Option Text
  pub submission_status : Option Text

pub record BulkOverrideEntry : Type 0 where
  pub date : Text
  pub first_clock_in : Option Text
  pub last_clock_out : Option Text
  pub leave_type : Option Text
  pub remark : Option Text
  pub overtime_hours : Option Num
  pub late_leave_reason : Option Text

pub record BulkOverrideRequest : Type 0 where
  pub year : ℕ
  pub month : ℕ
  pub emp_id : Option Text
  pub entries : List BulkOverrideEntry

pub record SubmissionStatus : Type 0 where
  pub submitted : Bool
  pub submitted_at : Option Text

-- The roles that pages test for.
unfoldable pub is_hr_role : Role → Bool
is_hr_role hr = true
is_hr_role admin = true
is_hr_role _ = false

unfoldable pub is_manager_role : Role → Bool
is_manager_role employee = false
is_manager_role _ = true
