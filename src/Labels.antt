-- ===== src/Labels.antt =====
-- The labels that the tables of several pages share: the badges and times of
-- frontend/src/app/attendance/page.tsx, frontend/src/app/team/page.tsx and
-- frontend/src/app/reports/page.tsx.
use pwa_attendance_record_sy.Prelude.{
  ◌+◌, ◌%◌, Bool, List, [], ◌∷◌, ◌++◌, Option, none, some, ltb, if◌then◌else◌, or_else,
}
use pwa_attendance_record_sy.Text.{Text, codes}
use pwa_attendance_record_sy.Text.Dict
use pwa_attendance_record_sy.Text.Decimal.{hh_mm}
use pwa_attendance_record_sy.Dates.{parse_clock}
use pwa_attendance_record_sy.Types.{WorkMode, office}

-- A text of a page: fixed or of the data, or the key of a translated one
pub data Label : Type 0 where
  plain key : Text → Label

-- `toLocaleTimeString` of the three pages; `space` is what the browser puts before AM and PM.
unfoldable pub locale_time : Text → Text → Text
locale_time space iso = elim (parse_clock iso) [
  | none ↦ codes "Invalid Date"
  | some (h, m) ↦
      hh_mm ((h + 11) % 12 + 1) m ++ (space ++ (if ltb h 12 then codes "AM" else codes "PM"))
]

-- `config` of `StatusBadge`
abbrev pub status_labels : List (Text × Label)
status_labels =
    (codes "NORMAL", key (codes "attendance.statusNormal"))
    ∷ (codes "LATE", key (codes "attendance.statusLate"))
    ∷ (codes "EARLY_LEAVE", key (codes "attendance.statusEarlyLeave"))
    ∷ (codes "LATE_AND_EARLY_LEAVE", key (codes "attendance.statusLateAndEarlyLeave"))
    ∷ (codes "ABNORMAL", key (codes "attendance.statusAbnormal"))
    ∷ (codes "ABSENT", key (codes "attendance.statusAbsent"))
    ∷ []

-- `StatusBadge` of a status as it is sent
unfoldable pub status_badge : Option Text → Option Label
status_badge none = none
status_badge (some []) = none
status_badge (some (c ∷ status)) =
    some (or_else (Dict.get (c ∷ status) status_labels) (plain (c ∷ status)))

-- `WorkModeBadge`
unfoldable pub work_mode_badge : WorkMode → Label
work_mode_badge m = elim m [
  | office ↦ key (codes "attendance.wfo")
  | _ ↦ key (codes "attendance.wfh")
]

-- What stands below the filters of a page: while it loads, after an error, without records, and a
-- table with its rows
pub data Body (A : Type 0) : Type 0 where
  loading blank no_records : Body A
  table : List A → Body A

unfoldable pub body : {A : Type 0} → Bool → Bool → List A → Body A
body is_loading failed rows =
    if is_loading
    then loading
    else if failed
    then blank
    else elim rows [ [] ↦ no_records | r ∷ rs ↦ table (r ∷ rs) ]
