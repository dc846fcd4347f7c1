-- ===== src/Tests/Access.antt =====
-- The team page and the login page at concrete inputs (frontend/src/app/team/page.tsx,
-- frontend/src/app/login/page.tsx).
use pwa_attendance_record_sy.Prelude.{
  ◌≡◌, ◌↔◌, ◌++◌, get_elem?, refl, true, false, ◌&&◌, List, [], ◌∷◌, Option, none, some, arith,
  field_of, if◌then◌else◌,
}
use pwa_attendance_record_sy.Text.{Text, codes, text_eq, truthy}
use pwa_attendance_record_sy.Dates.{LocalTime, local_date_string, iso_date_only}
use pwa_attendance_record_sy.Types.{office}
use pwa_attendance_record_sy.Team.{TeamPage, TeamLog, ReportEntry, day_status, fetch_done}
use pwa_attendance_record_sy.Team.View.{team_rows}
use pwa_attendance_record_sy.Team.Laws.{
  find_last, punched, last_of, is_same_day, cells, cells_below, status-find_last,
}
use pwa_attendance_record_sy.Labels.{status_badge}
use pwa_attendance_record_sy.Login.{LoginPage, Message, emp_id_required, password_required}

abbrev july_first : LocalTime
july_first = record { year = 2026; month = 7; date = 1; hours = 7; minutes = 41 }

abbrev entries : List ReportEntry
entries =
    record {
      emp_id = codes "EMP01";
      name = some (codes "Ann");
      date = codes "2026-07-01";
      status = codes "NORMAL";
      reason = none;
    }
    ∷ record {
      emp_id = codes "EMP02";
      name = none;
      date = codes "2026-07-01";
      status = codes "LATE";
      reason = some (codes "traffic");
    }
    ∷ []

abbrev team : TeamPage
team = record {
  logs = [];
  summary_map = [];
  name_map = [];
  is_loading = true;
  error = none;
  start_date = codes "2026-07-01";
  end_date = codes "2026-07-01";
}

-- A punch of another employee on the day, and one of the same employee the day before
abbrev logs_above : List TeamLog
logs_above =
    punched july_first (codes "08:55:00") (codes "EMP01") office false
    ∷ punched (record july_first { month = 6; date = 30 }) (codes "17:40:00") (codes "EMP02") office
        false
    ∷ []

status-find_last_example :
    let loaded =
      fetch_done
        (logs_above ++ punched july_first (codes "07:41:00") (codes "EMP02") office false ∷ [])
        (some entries)
        team in
    field_of cells (get_elem? (team_rows (codes " ") loaded none loaded.logs) 2)
    ≡ some (
        cells_below
          (is_same_day (codes "EMP02") (local_date_string july_first) (last_of none logs_above))
          (field_of day_status (
            find_last
              (λ (s : ReportEntry).
                text_eq s.emp_id (codes "EMP02") && text_eq s.date (local_date_string july_first))
              entries)))
status-find_last_example =
    status-find_last (codes " ") team logs_above [] july_first (codes "07:41:00") (codes "EMP02")
      office false entries
      (record {
        year_below = omega arith;
        year_above = omega arith;
        month_positive = omega arith;
        month_at_most = omega arith;
        date_positive = omega arith;
        date_at_most = omega arith;
      })
      (refl, (refl, tt)) (unfold local_date_string iso_date_only in (refl, (refl, tt)))

-- The status is that of the report.
status_beside :
    cells_below
      (is_same_day (codes "EMP02") (local_date_string july_first) (last_of none logs_above))
      (field_of day_status (
        find_last
          (λ (s : ReportEntry).
            text_eq s.emp_id (codes "EMP02") && text_eq s.date (local_date_string july_first))
          entries))
    ≡ (status_badge (some (codes "LATE")), some (codes "traffic"))
unfolding local_date_string iso_date_only text_eq day_status
status_beside = refl

abbrev login_page : LoginPage
login_page = record {
  storage = true;
  last_emp_id = none;
  fingerprint = false;
  emp_id = codes "EMP01 ";
  password = codes "secret99";
  error = none;
  is_submitting = false;
  is_fingerprint_loading = false;
}

-- The first issue of two texts that may not be empty
abbrev first_issue : Text → Text → Option Message
first_issue a b =
    if truthy a then (if truthy b then none else some password_required) else some emp_id_required

first_issue_iff : (a b : Text) → (first_issue a b ≡ none) ↔ ((truthy a ≡ true) × (truthy b ≡ true))
first_issue_iff a b = ground arith

abbrev next_page : LoginPage
next_page = record login_page { last_emp_id = some (codes "EMP01"); emp_id = []; password = [] }
