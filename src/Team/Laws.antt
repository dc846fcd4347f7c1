-- ===== src/Team/Laws.antt =====
-- The status beside a punch is the report's for that employee and day
-- (frontend/src/app/team/page.tsx).
use pwa_attendance_record_sy.Prelude.{
  ◌≡◌, refl, sym, ◌∙◌, ap, Bool, true, false, not, ◌&&◌, get_elem?, List, [], ◌∷◌, ◌++◌, Option,
  none, some, arith, length, maybe_field, length-append, All, or_maybe, field_of, if◌then◌else◌,
}
use pwa_attendance_record_sy.Text.{Text, text_eq, text_eq?, truthy?}
use pwa_attendance_record_sy.Text.Laws.{text_eq_iff}
use pwa_attendance_record_sy.Text.Dict
use pwa_attendance_record_sy.Types.{WorkMode}
use pwa_attendance_record_sy.Dates.{LocalTime, local_date_string, iso_date_only}
use pwa_attendance_record_sy.Dates.Strings.{IsDay, date_string_lem, iso_date_only-local_date_string}
use pwa_attendance_record_sy.Labels.{Label, status_badge}
use pwa_attendance_record_sy.Team.View.{TeamRow, team_rows}
use pwa_attendance_record_sy.Team.{
  TeamLog, ReportEntry, DayStatus, day_status, day_key, emp_date, fill_map, TeamPage, fetch_done,
}

-- The last entry that passes a test
abbrev pub find_last {ℓ} : {A : Type ℓ} → (A → Bool) → List A → Option A
find_last p [] = none
find_last p (x ∷ xs) = let rest = find_last p xs in or_maybe rest (if p x then some x else none)

text_eq-length : (s t : Text) → text_eq s t ≡ true → length s ≡ length t
text_eq-length s t h = ap length ((text_eq_iff s t).0 h)

-- Two keys are equal only for the same employee and the same date, if the dates are of one length.
text_eq-day_key :
    (a b d e : Text)
    → length d ≡ length e
    → text_eq (day_key a d) (day_key b e) ≡ (text_eq a b && text_eq d e)
unfolding text_eq day_key
text_eq-day_key [] [] d e h = ground arith
text_eq-day_key [] (y ∷ b) d e h =
    ground (arith, text_eq-length d (b ++ b'_' ∷ e), length-append b (b'_' ∷ e))
text_eq-day_key (x ∷ a) [] d e h =
    ground (arith, text_eq-length (a ++ b'_' ∷ d) e, length-append a (b'_' ∷ d))
text_eq-day_key (x ∷ a) (y ∷ b) d e h = ground (arith, text_eq-day_key a b d e h)

get-fill_map :
    (k : Text) (m : List (Text × DayStatus)) (entries : List ReportEntry)
    → Dict.get k (fill_map m entries)
      ≡ or_maybe
          (field_of day_status (find_last (λ s. text_eq (day_key s.emp_id s.date) k) entries))
          (Dict.get k m)
unfolding fill_map
get-fill_map k m [] = refl
get-fill_map k m (s ∷ entries) = ground (
  arith,
  get-fill_map k (Dict.put (day_key s.emp_id s.date) (day_status s) m) entries,
  Dict.get-put (day_key s.emp_id s.date) k (day_status s) m,
)

find_last-day_key :
    (emp_id date : Text) (entries : List ReportEntry)
    → All (λ s. length s.date ≡ length date) entries
    → find_last (λ s. text_eq (day_key s.emp_id s.date) (day_key emp_id date)) entries
      ≡ find_last (λ s. text_eq s.emp_id emp_id && text_eq s.date date) entries
find_last-day_key emp_id date [] h = refl
find_last-day_key emp_id date (s ∷ entries) (h, rest) = ground (
  arith,
  text_eq-day_key s.emp_id emp_id s.date date h,
  find_last-day_key emp_id date entries rest,
)

length-local_date_string :
    (d : LocalTime) → IsDay d.year d.month d.date → length (local_date_string d) ≡ 10
unfolding local_date_string
length-local_date_string d v = rw (date_string_lem d.year d.month d.date v) refl

-- A punch of an employee in the day of d, with any time of day behind the date
abbrev pub punched : LocalTime → Text → Text → WorkMode → Bool → TeamLog
punched d rest emp_id mode is_overridden = record {
  emp_id = emp_id;
  timestamp = local_date_string d ++ (b'T' ∷ rest);
  work_mode = mode;
  is_overridden = is_overridden;
}

emp_date-local_date_string :
    (d : LocalTime) (rest emp_id : Text) (mode : WorkMode) (is_overridden : Bool)
    → IsDay d.year d.month d.date
    → emp_date (punched d rest emp_id mode is_overridden) ≡ day_key emp_id (local_date_string d)
unfolding emp_date
emp_date-local_date_string d rest emp_id mode is_overridden v =
    ap (day_key emp_id)
      (iso_date_only-local_date_string d rest (omega (arith, v.month_at_most))
        (omega (arith, v.date_at_most))).0

or_maybe-none {ℓ} : {A : Type ℓ} (o : Option A) → or_maybe o none ≡ o
or_maybe-none none = refl
or_maybe-none (some a) = refl

All-ten :
    (date : Text) (entries : List ReportEntry)
    → length date ≡ 10
    → All (λ s. length s.date ≡ 10) entries
    → All (λ s. length s.date ≡ length date) entries
All-ten date [] e h = tt
All-ten date (s ∷ entries) e (h, rest) = (h ∙ sym e, All-ten date entries e rest)

get-find_last :
    (d : LocalTime) (rest emp_id : Text) (mode : WorkMode) (is_overridden : Bool)
    (entries : List ReportEntry)
    → IsDay d.year d.month d.date
    → All (λ s. length s.date ≡ 10) entries
    → Dict.get (emp_date (punched d rest emp_id mode is_overridden)) (fill_map [] entries)
      ≡ field_of day_status
          (find_last (λ s. text_eq s.emp_id emp_id && text_eq s.date (local_date_string d)) entries)
unfolding Dict.get
get-find_last d rest emp_id mode is_overridden entries v h =
    let date = local_date_string d in
    let key = day_key emp_id date in
    ap (λ k. Dict.get k (fill_map [] entries))
      (emp_date-local_date_string d rest emp_id mode is_overridden v)
    ∙ get-fill_map key [] entries
    ∙ or_maybe-none
        (field_of day_status (find_last (λ s. text_eq (day_key s.emp_id s.date) key) entries))
    ∙ ap (field_of day_status) (
        find_last-day_key emp_id date entries
          (All-ten date entries (length-local_date_string d v) h))

-- What the row of a day's first punch shows of an entry of the report: its badge, and its reason
abbrev pub shown_of : Option DayStatus → Option Label × Option Text
shown_of s =
    let reason = maybe_field (λ (t : DayStatus). t.reason) s in
    (
      status_badge (field_of (λ (t : DayStatus). t.status) s),
      if truthy? reason then reason else none,
    )

-- The last log of a list, or the one before it
abbrev pub last_of : Option TeamLog → List TeamLog → Option TeamLog
last_of l [] = l
last_of l (m ∷ logs) = last_of (some m) logs

-- There is a log above, and it is of the same employee and day.
abbrev pub is_same_day : Text → Text → Option TeamLog → Bool
is_same_day emp_id date none = false
is_same_day emp_id date (some l) =
    text_eq emp_id l.emp_id && text_eq date (iso_date_only l.timestamp)

-- The cells of a row for the status and the reason
abbrev pub cells : TeamRow → Option Label × Option Text
cells r = (r.status, r.reason)

-- What a row shows of its day, if it does not stand below another one of that day
abbrev pub cells_below : Bool → Option DayStatus → Option Label × Option Text
cells_below same s = if same then (none, none) else shown_of s

if_first :
    (same : Bool) (s : Option DayStatus)
    → let reason = maybe_field (λ (t : DayStatus). t.reason) s in
      (
        if not same then status_badge (field_of (λ (t : DayStatus). t.status) s) else none,
        if not same && truthy? reason then reason else none,
      )
      ≡ cells_below same s
if_first true s = refl
if_first false s = refl

get_elem-team_rows :
    (space : Text) (p : TeamPage) (above : Option TeamLog) (before after : List TeamLog)
    (l : TeamLog)
    → field_of cells (
        get_elem?
          (team_rows space p (field_of emp_date above) (before ++ l ∷ after))
          (length before))
      ≡ some (
          cells_below
            (text_eq? (some (emp_date l)) (field_of emp_date (last_of above before)))
            (Dict.get (emp_date l) p.summary_map))
unfolding team_rows
get_elem-team_rows space p above [] after l = ap some (
    if_first (text_eq? (some (emp_date l)) (field_of emp_date above))
      (Dict.get (emp_date l) p.summary_map))
get_elem-team_rows space p above (m ∷ before) after l =
    get_elem-team_rows space p (some m) before after l

-- The date of the log, if there is one, has ten characters.
abbrev IsDated : Option TeamLog → Type 0
IsDated none = Unit
IsDated (some l) = length (iso_date_only l.timestamp) ≡ 10

last_of-IsDated :
    (above : Option TeamLog) (before : List TeamLog)
    → IsDated above
    → All (λ l. length (iso_date_only l.timestamp) ≡ 10) before
    → IsDated (last_of above before)
last_of-IsDated above [] h k = h
last_of-IsDated above (m ∷ before) h (k, ks) = last_of-IsDated (some m) before k ks

text_eq-emp_date :
    (emp_id date : Text) (above : Option TeamLog)
    → length date ≡ 10
    → IsDated above
    → text_eq? (some (day_key emp_id date)) (field_of emp_date above)
      ≡ is_same_day emp_id date above
unfolding text_eq? emp_date
text_eq-emp_date emp_id date none h k = refl
text_eq-emp_date emp_id date (some l) h k =
    text_eq-day_key emp_id l.emp_id date (iso_date_only l.timestamp) (h ∙ sym k)

-- In the table of the loaded logs, the row of a punch shows no status and no reason below a row of
-- the same employee and day, and otherwise those of the loaded report's last entry for the employee
-- and the date, none if the report has no such entry: wherever the punch stands in the list and
-- whatever its time, for years of four digits and a report and logs above whose dates have ten
-- characters.
pub status-find_last :
    (space : Text) (p : TeamPage) (before after : List TeamLog) (d : LocalTime) (rest emp_id : Text)
    (mode : WorkMode) (is_overridden : Bool) (entries : List ReportEntry)
    → IsDay d.year d.month d.date
    → All (λ s. length s.date ≡ 10) entries
    → All (λ l. length (iso_date_only l.timestamp) ≡ 10) before
    → let loaded =
        fetch_done (before ++ punched d rest emp_id mode is_overridden ∷ after) (some entries) p in
      field_of cells (get_elem? (team_rows space loaded none loaded.logs) (length before))
      ≡ some (
          cells_below (is_same_day emp_id (local_date_string d) (last_of none before)) (
            field_of day_status (
              find_last
                (λ s. text_eq s.emp_id emp_id && text_eq s.date (local_date_string d))
                entries)))
unfolding fetch_done
status-find_last space p before after d rest emp_id mode is_overridden entries v h k =
    let l = punched d rest emp_id mode is_overridden in
    let loaded = fetch_done (before ++ l ∷ after) (some entries) p in
    let above = last_of none before in
    let same =
      ap (λ key. text_eq? (some key) (field_of emp_date above))
        (emp_date-local_date_string d rest emp_id mode is_overridden v)
      ∙ text_eq-emp_date emp_id (local_date_string d) above (length-local_date_string d v)
          (last_of-IsDated none before tt k) in
    let found = get-find_last d rest emp_id mode is_overridden entries v h in
    get_elem-team_rows space loaded none before after l
    ∙ ap (λ b. some (cells_below b (Dict.get (emp_date l) (fill_map [] entries)))) same
    ∙ ap (λ s. some (cells_below (is_same_day emp_id (local_date_string d) above) s)) found
