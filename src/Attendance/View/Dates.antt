-- ===== src/Attendance/View/Dates.antt =====
-- The dates of the attendance page's rows (frontend/src/app/attendance/page.tsx).
use pwa_attendance_record_sy.Prelude.{
  ◌≡◌, refl, sym, ap, ◌∙◌, true, false, List, [], ◌∷◌, map, Option, none, some, if◌then◌else◌,
  Bool-cases, inl, inr, All, or_else,
}
use pwa_attendance_record_sy.Text.{Text, truthy, text_eq?}
use pwa_attendance_record_sy.Text.Laws.{text_eq_iff}
use pwa_attendance_record_sy.Dates.{iso_date_only}
use pwa_attendance_record_sy.Labels.{Body, table, body}
use pwa_attendance_record_sy.Attendance.{AttendanceLog, AttendancePage, visible_logs}
use pwa_attendance_record_sy.Attendance.View.{LogRow, log_rows, attendance_view}

-- How a reader takes a column with blanks: a blank stands for the entry above.
abbrev pub read_down : Text → List Text → List Text
read_down above [] = []
read_down above (c ∷ cs) = let entry = if truthy c then c else above in entry ∷ read_down entry cs

-- The rows of the table, if it is shown
abbrev pub shown_rows : Body LogRow → List LogRow
shown_rows (table rows) = rows
shown_rows _ = []

abbrev date_of_logs : List AttendanceLog → List Text
date_of_logs logs = map (λ (l : AttendanceLog). iso_date_only l.timestamp) logs

same_date : (d e : Text) → text_eq? (some d) (some e) ≡ true → e ≡ d
unfolding text_eq?
same_date d e h = sym ((text_eq_iff d e).0 h)

read_down-blank :
    (above d : Text) (cs : List Text) → above ≡ d → read_down above ([] ∷ cs) ≡ d ∷ read_down d cs
read_down-blank above d cs e = ap (λ x. x ∷ read_down x cs) e

read_down-entry :
    (above d : Text) (cs : List Text)
    → truthy d ≡ true
    → read_down above (d ∷ cs) ≡ d ∷ read_down d cs
read_down-entry above d cs h = ap (λ b. let x = if b then d else above in x ∷ read_down x cs) h

abbrev dates_of : List LogRow → List Text
dates_of rows = map (λ (r : LogRow). r.date) rows

read_down-log_rows :
    (space : Text) (m : List (Text × Text)) (prev : Option Text) (logs : List AttendanceLog)
    → All (λ l. truthy (iso_date_only l.timestamp) ≡ true) logs
    → read_down (or_else prev []) (dates_of (log_rows space m prev logs)) ≡ date_of_logs logs
unfolding log_rows iso_date_only text_eq?
read_down-log_rows space m prev [] h = refl
read_down-log_rows space m none (l ∷ logs) (h, hs) =
    let date = iso_date_only l.timestamp in
    read_down-entry [] date (dates_of (log_rows space m (some date) logs)) h
    ∙ ap (λ ds. date ∷ ds) (read_down-log_rows space m (some date) logs hs)
read_down-log_rows space m (some prev) (l ∷ logs) (h, hs) =
    let date = iso_date_only l.timestamp in
    let rest = dates_of (log_rows space m (some date) logs) in
    let below = ap (λ ds. date ∷ ds) (read_down-log_rows space m (some date) logs hs) in
    elim (Bool-cases (text_eq? (some date) (some prev))) [
      | inl e ↦ rw e (read_down-blank prev date rest (same_date date prev e) ∙ below)
      | inr e ↦ rw e (read_down-entry prev date rest h ∙ below)
    ]

shown_rows-body : (rows : List LogRow) → shown_rows (body false false rows) ≡ rows
unfolding body
shown_rows-body [] = refl
shown_rows-body (r ∷ rows) = refl

-- Read down, with a blank for the entry above, the column of the dates that the page shows once it
-- has loaded without an error gives each visible log's date, where no log's date is blank.
pub read_down-attendance_view :
    (space : Text) (p : AttendancePage)
    → All (λ l. truthy (iso_date_only l.timestamp) ≡ true) (visible_logs p)
    → p.is_loading ≡ false
    → p.error ≡ none
    → let rows = shown_rows (attendance_view space p).body in
      read_down [] (map (λ (r : LogRow). r.date) rows)
      ≡ map (λ (l : AttendanceLog). iso_date_only l.timestamp) (visible_logs p)
unfolding attendance_view
read_down-attendance_view space p h loaded ok =
    let rows = log_rows space p.summary_map none (visible_logs p) in
    rw (loaded, ok, shown_rows-body rows)
      (read_down-log_rows space p.summary_map none (visible_logs p) h)
