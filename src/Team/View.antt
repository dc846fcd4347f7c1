-- ===== src/Team/View.antt =====
-- What the team page shows (frontend/src/app/team/page.tsx). The column of the location, colours and
-- fixed texts are left out.
use pwa_attendance_record_sy.Prelude.{
  Bool, not, ◌&&◌, List, [], ◌∷◌, ◌++◌, Option, none, some, if◌then◌else◌, is_some, or_else,
  field_of, maybe_field,
}
use pwa_attendance_record_sy.Text.{Text, codes, text_eq?, truthy?}
use pwa_attendance_record_sy.Text.Decimal.{two_digits}
use pwa_attendance_record_sy.Text.Dict
use pwa_attendance_record_sy.Dates.{iso_date_only, parse_clock, parse_date}
use pwa_attendance_record_sy.Types.{Role, is_manager_role}
use pwa_attendance_record_sy.Messages.{Note}
use pwa_attendance_record_sy.Labels.{Label, locale_time, status_badge, work_mode_badge, Body, body}
use pwa_attendance_record_sy.Team.{TeamLog, DayStatus, TeamPage, emp_date}

-- `formatDateTime`
unfoldable pub format_date_time : Text → Text → Text
unfolding two_digits locale_time
format_date_time space iso = elim (parse_clock iso) [
  | none ↦ codes "Invalid Date Invalid Date"
  | some c ↦ elim (parse_date (iso_date_only iso)) [
    | none ↦ codes "Invalid Date Invalid Date"
    | some (y, m, d) ↦ two_digits m ++ (b'/' ∷ (two_digits d ++ (b' ' ∷ locale_time space iso)))
  ]
]

-- The cells of a row, and whether it stands below a line
pub record TeamRow : Type 0 where
  pub has_line : Bool
  pub emp_id : Text
  pub name : Text
  pub time : Text
  pub work_mode : Label
  pub status : Option Label
  pub has_overridden_note : Bool
  pub reason : Option Text

-- The rows below one of the key `prev_key`, or from the first on
unfoldable pub team_rows : Text → TeamPage → Option Text → List TeamLog → List TeamRow
unfolding emp_date format_date_time work_mode_badge status_badge
team_rows space p prev_key [] = []
team_rows space p prev_key (l ∷ logs) =
    let rest = team_rows space p (some (emp_date l)) logs in
    let is_first = not (text_eq? (some (emp_date l)) prev_key) in
    let of_day = Dict.get (emp_date l) p.summary_map in
    let reason = maybe_field (λ (s : DayStatus). s.reason) of_day in
    record {
      has_line = is_first && is_some prev_key;
      emp_id = if is_first then l.emp_id else [];
      name = if is_first then or_else (Dict.get l.emp_id p.name_map) [] else [];
      time = format_date_time space l.timestamp;
      work_mode = work_mode_badge l.work_mode;
      status =
          if is_first then status_badge (field_of (λ (s : DayStatus). s.status) of_day) else none;
      has_overridden_note = l.is_overridden;
      reason = if is_first && truthy? reason then reason else none;
    }
    ∷ rest

pub record TeamView : Type 0 where
  pub start_date : Text
  pub end_date : Text
  pub error : Option Note
  pub body : Body TeamRow

-- The page; to others than managers it shows that they may not see it.
unfoldable pub team_view : Text → Role → TeamPage → Option TeamView
unfolding team_rows body
team_view space role p =
    if not (is_manager_role role)
    then none
    else some (record {
      start_date = p.start_date;
      end_date = p.end_date;
      error = p.error;
      body = body p.is_loading (is_some p.error) (team_rows space p none p.logs);
    })
