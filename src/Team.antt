-- ===== src/Team.antt =====
-- frontend/src/app/team/page.tsx: the table of the team's punches, with the status of each day.
pub mod Laws
pub mod View
use pwa_attendance_record_sy.Prelude.{
  ℕ, Bool, true, false, not, ◌&&◌, List, [], ◌∷◌, ◌++◌, Option, none, some, maybe_field, or_else,
  if◌then◌else◌,
}
use pwa_attendance_record_sy.Text.{Text, codes, text_eq, text_eq?, truthy?, truthy}
use pwa_attendance_record_sy.Text.Dict
use pwa_attendance_record_sy.Messages.{Note, Thrown, message_or}
use pwa_attendance_record_sy.Dates.{iso_date_only}
use pwa_attendance_record_sy.Types.{WorkMode, Role, is_hr_role, is_manager_role}

-- What the page reads of an `AttendanceLog`
pub record TeamLog : Type 0 where
  pub emp_id : Text
  pub timestamp : Text
  pub work_mode : WorkMode
  pub is_overridden : Bool

-- An entry of the daily report
pub record ReportEntry : Type 0 where
  pub emp_id : Text
  pub name : Option Text
  pub date : Text
  pub status : Text
  pub reason : Option Text

pub record DayStatus : Type 0 where
  pub status : Text
  pub reason : Option Text

unfoldable pub day_status : ReportEntry → DayStatus
day_status s = record { status = s.status; reason = s.reason }

-- The key of an employee's day
unfoldable pub day_key : Text → Text → Text
day_key emp_id date = emp_id ++ b'_' ∷ date

-- `empDate` of a log
unfoldable pub emp_date : TeamLog → Text
emp_date l = day_key l.emp_id (iso_date_only l.timestamp)

-- The loop of `fetchLogs` that fills `map`
unfoldable pub fill_map : List (Text × DayStatus) → List ReportEntry → List (Text × DayStatus)
fill_map m [] = m
fill_map m (s ∷ entries) = fill_map (Dict.put (day_key s.emp_id s.date) (day_status s) m) entries

-- The loop of `fetchLogs` that fills `names`
unfoldable pub fill_names : List (Text × Text) → List ReportEntry → List (Text × Text)
fill_names m [] = m
fill_names m (s ∷ entries) = elim s.name [
  | none ↦ fill_names m entries
  | some n ↦ fill_names (if truthy n then Dict.put s.emp_id n m else m) entries
]

-- The page is for managers; the endpoint of the logs is everyone's for HR, else the team's.
unfoldable pub endpoint : Role → Option Text
endpoint r =
    if not (is_manager_role r)
    then none
    else some (if is_hr_role r then codes "/api/attendance/all" else codes "/api/attendance/team")

-- The page's state
pub record TeamPage : Type 0 where
  pub logs : List TeamLog
  pub summary_map : List (Text × DayStatus)
  pub name_map : List (Text × Text)
  pub is_loading : Bool
  pub error : Option Note
  pub start_date : Text
  pub end_date : Text

-- The path of the other request of `fetchLogs`
unfoldable pub report_path : TeamPage → Text
report_path p =
    codes "/api/reports/daily?start_date="
    ++ (p.start_date ++ (codes "&end_date=" ++ (p.end_date ++ codes "&submission_filter=all")))

-- `fetchLogs` up to its requests, for a page that the user may see
unfoldable pub fetch_logs : TeamPage → TeamPage
fetch_logs p = record p { is_loading = true; error = none }

-- The rest of `fetchLogs`: the logs and the entries of the report, `none` where their request fails
unfoldable pub fetch_done : List TeamLog → Option (List ReportEntry) → TeamPage → TeamPage
unfolding fill_map fill_names
fetch_done logs entries p = record p {
  logs = logs;
  summary_map = fill_map [] (or_else entries []);
  name_map = fill_names [] (or_else entries []);
  is_loading = false;
}

unfoldable pub fetch_refused : Thrown → TeamPage → TeamPage
fetch_refused err p = record p {
  error = some (message_or err (codes "team.failedToLoad"));
  is_loading = false;
}
