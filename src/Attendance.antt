-- ===== src/Attendance.antt =====
-- frontend/src/app/attendance/page.tsx: an employee's punches in a range of dates. A load of the
-- page sends two requests and waits for both; it stands here as one.
pub mod Order
pub mod Week
pub mod View
use pwa_attendance_record_sy.Prelude.{
  ℕ, zero, suc, ◌-◌, ◌+◌, Bool, true, false, not, ◌&&◌, ◌==◌, List, [], ◌∷◌, ◌++◌, Option, none,
  some, or_else, filter, if◌then◌else◌,
}
use pwa_attendance_record_sy.Text.{Text, codes, truthy, text_eq, text_eq?}
use pwa_attendance_record_sy.Text.Dict
use pwa_attendance_record_sy.Dates.{LocalTime, iso_date_only, day_number, get_day}
use pwa_attendance_record_sy.Types.{WorkMode}
use pwa_attendance_record_sy.Messages.{Note, Thrown, message_or}

-- What the page reads of a log
pub record AttendanceLog : Type 0 where
  pub timestamp : Text
  pub work_mode : WorkMode
  pub is_overridden : Bool

-- The filter's first and last day
pub record Range : Type 0 where
  pub start : Text
  pub end : Text

-- `buildQueryPath`; a date needs no escaping in a query.
query : List (Text × Text) → Text
query [] = []
query ((k, v) ∷ []) = k ++ b'=' ∷ v
query ((k, v) ∷ q ∷ ps) = (k ++ b'=' ∷ v) ++ b'&' ∷ query (q ∷ ps)

unfoldable pub build_query_path : Range → Text
unfolding query
build_query_path r =
    let qs = query (
      (if truthy r.start then (codes "start_date", r.start) ∷ [] else [])
      ++ (if truthy r.end then (codes "end_date", r.end) ∷ [] else [])) in
    if truthy qs then codes "/api/attendance?" ++ qs else codes "/api/attendance"

-- The other request, which has both dates even if they are blank
unfoldable pub summaries_path : Range → Text
summaries_path r =
    codes "/api/attendance/summaries?start_date=" ++ (r.start ++ (codes "&end_date=" ++ r.end))

pub record AttendancePage : Type 0 where
  pub logs : List AttendanceLog
  pub summary_map : List (Text × Text)
  pub is_loading : Bool
  pub error : Option Note
  pub start_date : Text
  pub end_date : Text

unfoldable pub range_of : AttendancePage → Range
range_of p = record { start = p.start_date; end = p.end_date }

-- `fetchLogs`, up to its requests
unfoldable pub fetch_logs : AttendancePage → AttendancePage × Option Range
unfolding range_of
fetch_logs p = (record p { is_loading = true; error = none }, some (range_of p))

-- The loop of `fetchLogs` that fills `map`, of pairs of a date and a status
unfoldable pub fill_map : List (Text × Text) → List (Text × Text) → List (Text × Text)
fill_map m [] = m
fill_map m ((date, status) ∷ more) = fill_map (Dict.put date status m) more

-- What the requests bring back: the logs, and the summaries unless their request fails
pub record Loaded : Type 0 where
  pub logs : List AttendanceLog
  pub summaries : Option (List (Text × Text))

unfoldable pub fetch_done : Loaded → AttendancePage → AttendancePage
unfolding fill_map
fetch_done a p = record p {
  logs = a.logs;
  summary_map = fill_map [] (or_else a.summaries []);
  is_loading = false;
}

unfoldable pub fetch_refused : Thrown → AttendancePage → AttendancePage
fetch_refused err p = record p {
  error = some (message_or err (codes "attendance.failedToLoad"));
  is_loading = false;
}

-- The inputs, with the effect that a changed date runs
unfoldable pub set_start_date : Text → AttendancePage → AttendancePage × Option Range
unfolding fetch_logs
set_start_date s p =
    if text_eq s p.start_date then (p, none) else fetch_logs (record p { start_date = s })

unfoldable pub set_end_date : Text → AttendancePage → AttendancePage × Option Range
unfolding fetch_logs
set_end_date s p =
    if text_eq s p.end_date then (p, none) else fetch_logs (record p { end_date = s })

-- `visibleLogs`
unfoldable pub visible_logs : AttendancePage → List AttendanceLog
visible_logs p = filter (λ l. not l.is_overridden) p.logs

-- The week that the page opens with, as days of the calendar: Monday to Sunday of today's
unfoldable pub monday : LocalTime → ℕ
unfolding get_day
monday now =
    let day = get_day now in
    day_number now.year now.month now.date - (if day == 0 then 6 else day - 1)

unfoldable pub sunday : LocalTime → ℕ
unfolding get_day
sunday now =
    let day = get_day now in
    day_number now.year now.month now.date + (if day == 0 then 0 else 7 - day)
