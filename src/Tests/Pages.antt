-- ===== src/Tests/Pages.antt =====
-- The dashboard, the attendance page and the submission status at concrete states
-- (frontend/src/app/dashboard/page.tsx, frontend/src/app/attendance/page.tsx,
-- frontend/src/app/dashboard/monthly-override/page.tsx).
use pwa_attendance_record_sy.Prelude.{
  ◌⊎◌, ◌≡◌, refl, true, false, List, [], ◌∷◌, map, Bool, Option, none, some,
}
use pwa_attendance_record_sy.Text.{Text, codes, text_eq}
use pwa_attendance_record_sy.Messages.{other}
use pwa_attendance_record_sy.Types.{office, hr, AuthUser, SubmissionStatus}
use pwa_attendance_record_sy.Override.Status as Status
use pwa_attendance_record_sy.Override.Status.Laws.{no_live, IsOf, Stays, run-status}
use pwa_attendance_record_sy.Dates.{LocalTime, iso_date_only}
use pwa_attendance_record_sy.Dashboard.{FingerprintSection}
use pwa_attendance_record_sy.Attendance.{
  AttendanceLog, AttendancePage, visible_logs, Range, Loaded, range_of, set_start_date,
  set_end_date, fetch_logs, fetch_done, fetch_refused,
}
use pwa_attendance_record_sy.Attendance.View.{attendance_view}
use pwa_attendance_record_sy.Attendance.View.Dates.{
  read_down, shown_rows, read_down-attendance_view,
}
use pwa_attendance_record_sy.Attendance.Order as Order
use pwa_attendance_record_sy.Attendance.Order.{IsShowing, run-IsShowing, run-stale}

abbrev hr_user : Option AuthUser
hr_user = some (record { emp_id = codes "EMP09"; role = hr })

abbrev fingerprint : FingerprintSection
fingerprint = record {
  webauthn = record { is_supported = true; loading = false; error = none };
  is_registered = false;
  action_loading = false;
  message = none;
  seen_error = none;
}

-- A Thursday
abbrev now : LocalTime
now = record { year = 2026; month = 11; date = 26; hours = 14; minutes = 30 }

abbrev page : AttendancePage
page = record {
  logs = [];
  summary_map = [];
  is_loading = true;
  error = none;
  start_date = codes "2026-11-23";
  end_date = codes "2026-11-29";
}

-- A service that has a log on the first day of each range
abbrev answer : Range → Loaded
answer r = record {
  logs = record { timestamp = r.start; work_mode = office; is_overridden = false } ∷ [];
  summaries = some ((r.start, codes "NORMAL") ∷ []);
}

abbrev moves : List Order.Move
moves =
    Order.start_input (codes "2026-11-01")
    ∷ Order.refused 0 other
    ∷ Order.end_input (codes "2026-11-30")
    ∷ Order.answered 0
    ∷ Order.answered 0
    ∷ []

moves_answered :
    (Order.run answer (record { page = page; pending = range_of page ∷ [] }) moves).pending ≡ []
unfolding Order.run Order.move set_start_date set_end_date fetch_logs fetch_done fetch_refused
    text_eq
moves_answered = refl

run-IsShowing_example :
    IsShowing answer
      (Order.run answer (record { page = page; pending = range_of page ∷ [] }) moves).page
run-IsShowing_example =
    run-IsShowing answer page moves (tt, (refl, (tt, (refl, (refl, tt))))) moves_answered

abbrev july : Status.Target
july = record { emp_id = codes "EMP01"; year = 2026; month = 7 }

abbrev august : Status.Target
august = record { emp_id = codes "EMP01"; year = 2026; month = 8 }

-- Nothing has been submitted before.
abbrev status_before : Status.Target → Option SubmissionStatus
status_before t = some (record { submitted = false; submitted_at = none })

abbrev status_after : Status.Target → SubmissionStatus
status_after t = record { submitted = true; submitted_at = some (codes "2026-09-01T09:00:00") }

abbrev status_opened : Status.StatusState
status_opened = record { status = none; target = none; pending = []; submissions = [] }

-- The answer for August comes before the one for July, and August is submitted.
abbrev status_events : List Status.Event
status_events =
    Status.rendered (some august)
    ∷ Status.answered 1
    ∷ Status.submitted
    ∷ Status.answered 0
    ∷ Status.confirmed 0
    ∷ []

status_events-Stays :
    Stays status_before status_after status_opened (Status.rendered (some july) ∷ status_events)
unfolding Status.step Status.status_effect Status.on_answer Status.load_status Status.perform_submit
    Status.on_confirmed
status_events-Stays = (tt, (tt, (tt, (tt, (tt, (refl, tt))))))

run-status_example :
    let s =
      Status.run status_before status_after status_opened
        (Status.rendered (some july) ∷ status_events) in
    (no_live s.pending ≡ false) ⊎ IsOf status_before status_after s.target s.status
run-status_example =
    run-status status_before status_after (some july) status_events status_events-Stays

status_shown :
    (Status.run status_before status_after status_opened
      (Status.rendered (some july) ∷ status_events)).status
    ≡ some (record { submitted = true; submitted_at = some (codes "2026-09-01T09:00:00") })
unfolding Status.run Status.step Status.status_effect Status.on_answer Status.load_status
    Status.perform_submit Status.on_confirmed
status_shown = refl

abbrev log_at : Text → Bool → AttendanceLog
log_at timestamp b = record { timestamp = timestamp; work_mode = office; is_overridden = b }

-- Two punches of a day, an entry that was overridden, and a punch of the next day
abbrev two_days : AttendancePage
two_days = record page {
  logs =
      log_at (codes "2026-11-23T08:58:00") false
      ∷ log_at (codes "2026-11-23T17:40:00") false
      ∷ log_at (codes "2026-11-24T09:20:00") true
      ∷ log_at (codes "2026-11-24T09:00:00") false
      ∷ [];
  is_loading = false;
}

read_down-attendance_view_example :
    read_down [] (map (λ r. r.date) (shown_rows (attendance_view (codes " ") two_days).body))
    ≡ map (λ (l : AttendanceLog). iso_date_only l.timestamp) (visible_logs two_days)
unfolding visible_logs iso_date_only
read_down-attendance_view_example =
    read_down-attendance_view (codes " ") two_days (refl, (refl, (refl, tt))) refl refl
