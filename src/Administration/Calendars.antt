-- ===== src/Administration/Calendars.antt =====
-- frontend/src/app/admin/page.tsx, CalendarStatusSection: the calendars that the service has loaded
-- and their refresh, one year at a time.
use pwa_attendance_record_sy.Prelude.{
  ℕ, Bool, false, not, ◌&&◌, List, [], ◌∷◌, Option, none, some, ◌==◌, is_some, if◌then◌else◌, any,
}
use pwa_attendance_record_sy.Text.{Text, codes}
use pwa_attendance_record_sy.Text.Decimal.{to_decimal}
use pwa_attendance_record_sy.Messages.{Note, said, Thrown, message_or}

pub record CalendarStatus : Type 0 where
  pub year : ℕ
  pub loaded : Bool
  pub entry_count : Option ℕ
  pub updated_at : Option Text
  pub updated_by : Option Text

pub data Message : Type 0 where
  success failure : Note → Message

pub record CalendarSection : Type 0 where
  pub calendars : List CalendarStatus
  pub is_loading : Bool
  pub error : Option Note
  pub refreshing_year : Option ℕ
  pub message : Option Message

pub data Request : Type 0 where
  status : Request
  refresh : ℕ → Request

-- `fetchStatus`, ended
unfoldable pub status_done : List CalendarStatus → CalendarSection → CalendarSection
status_done answer p = record p { calendars = answer; error = none; is_loading = false }

unfoldable pub status_refused : Thrown → CalendarSection → CalendarSection
status_refused err p = record p {
  error = some (message_or err (codes "calendarStatus.refreshError"));
  is_loading = false;
}

-- `handleRefresh` up to its request
unfoldable pub handle_refresh : ℕ → CalendarSection → CalendarSection × Option Request
handle_refresh year p =
    (record p { refreshing_year = some year; message = none }, some (refresh year))

-- The refresh has been answered: the handler asks for the status, and only when that has ended it
-- forgets the year. A refusal forgets it at once.
unfoldable pub refresh_done : ℕ → CalendarSection → CalendarSection × Option Request
unfolding to_decimal
refresh_done count p = (
  record p {
    message = some (
        success
          (said (codes "calendarStatus.refreshSuccess") ((codes "count", to_decimal count) ∷ [])));
  },
  some status,
)

unfoldable pub refresh_refused : Thrown → CalendarSection → CalendarSection
refresh_refused err p = record p {
  message = some (failure (message_or err (codes "calendarStatus.refreshError")));
  refreshing_year = none;
}

unfoldable pub refresh_end : CalendarSection → CalendarSection
refresh_end p = record p { refreshing_year = none }

-- The button of a year is disabled while `refreshingYear` is that year.
unfoldable pub is_refreshing : ℕ → CalendarSection → Bool
is_refreshing year p = elim p.refreshing_year [ none ↦ false | some y ↦ y == year ]

pub data Event : Type 0 where
  refresh_click : ℕ → Event
  -- the first load, and the status after a refresh
  loaded : List CalendarStatus → Event
  not_loaded : Thrown → Event
  refreshed : ℕ → Event
  not_refreshed : Thrown → Event
  loaded_again : List CalendarStatus → Event
  not_loaded_again : Thrown → Event

unfoldable pub step : CalendarSection → Event → CalendarSection × Option Request
unfolding is_refreshing
step p (refresh_click year) =
    if not p.is_loading
      && not (is_some p.error)
      && any (λ (c : CalendarStatus). c.year == year) p.calendars
      && not (is_refreshing year p)
    then handle_refresh year p
    else (p, none)
step p (loaded answer) = (status_done answer p, none)
step p (not_loaded err) = (status_refused err p, none)
step p (refreshed count) = refresh_done count p
step p (not_refreshed err) = (refresh_refused err p, none)
step p (loaded_again answer) = (refresh_end (status_done answer p), none)
step p (not_loaded_again err) = (refresh_end (status_refused err p), none)
