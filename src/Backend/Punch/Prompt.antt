-- ===== src/Backend/Punch/Prompt.antt =====
-- When a live punch asks for a reason, and what becomes of a late-leave reason
-- (backend/app/services/attendance_service.py, backend/app/services/reason_service.py).
use pwa_attendance_record_sy.Prelude.{
  ℕ, ◌≡◌, refl, sym, ap, ◌∙◌, Bool, true, false, ◌||◌, List, [], ◌∷◌, ◌++◌, Option, none, some,
  arith, is_some, if◌then◌else◌,
}
use pwa_attendance_record_sy.Text.{Text, truthy?}
use pwa_attendance_record_sy.DayKinds.{DayKind}
use pwa_attendance_record_sy.Types.{AttendanceStatus, PunchResponse}
use pwa_attendance_record_sy.Punch.{asks_reason}
use pwa_attendance_record_sy.Backend.Gate.{
  Moment, Summary, ShiftEnd, misses_reason, punches_need_reason,
}
use pwa_attendance_record_sy.Backend.Status.{Clock}
use pwa_attendance_record_sy.Backend.Day.{Log, Day, Rules, find_first_clock_in, upsert_generated}
use pwa_attendance_record_sy.Backend.Day.Sync.{some_of, generate_of_punch}
use pwa_attendance_record_sy.Backend.Punch.{
  is_eligible, check_tardiness, with_reason, prompt, summarised, PunchOutcome, refused, stored,
  GeoResult, Geo, with_log, store_punch, service_punch, accepted, already_given, submit_reason,
}

with_reason-none : (reason : Option Text) → with_reason reason none ≡ none
unfolding with_reason
with_reason-none none = refl
with_reason-none (some t) = refl

summarised-summary :
    (r : Rules) (tardy : Option AttendanceStatus) (reason : Option Text) (d : Day)
    → is_some (summarised r tardy reason d).1 ≡ true
    → (summarised r tardy reason d).0.summary ≡ (summarised r tardy reason d).1
unfolding summarised
summarised-summary r tardy reason d h = ground (arith, with_reason-none reason)

prompt-is_eligible :
    (tardy : Option AttendanceStatus) (s : Option Summary)
    → (prompt tardy s).1 ≡ true
    → (x : Summary) × (s ≡ some x) × (is_eligible x.status ≡ true)
unfolding prompt
prompt-is_eligible none s h = cc
prompt-is_eligible (some t) none h = cc
prompt-is_eligible (some t) (some x) h = (x, refl, ground arith)

abbrev day_or : Day → PunchOutcome → Day
day_or d (refused why) = d
day_or d (stored d' a) = d'

abbrev id_of : PunchOutcome → Option ℕ
id_of (refused why) = none
id_of (stored d' a) = a.summary_id

-- The day and the answer of a stored punch
store_parts :
    (r : Rules) (id : ℕ) (g : GeoResult) (at : Clock) (reason : Option Text) (d d' : Day)
    (a : PunchResponse)
    → store_punch r id g at reason d ≡ stored d' a
    → let tardy = check_tardiness r.shift r.grace (with_log at d).logs at in
      let made = summarised r tardy reason (with_log at d) in
      (made.0 ≡ d') × (a.summary_id ≡ (if (prompt tardy made.1).1 then some id else none))
unfolding store_punch
store_parts r id g at reason d d' a h = (ap (day_or d) h, sym (ap id_of h))

service_punch-stored :
    (r : Rules) (id : ℕ) (geo : Geo) (now at : Clock) (reason : Option Text) (d d' : Day)
    (a : PunchResponse)
    → service_punch r id geo now at reason d ≡ stored d' a
    → (g : GeoResult) × (store_punch r id g at reason d ≡ stored d' a)
unfolding service_punch
service_punch-stored r id none now at reason d d' a h = absurd (ground arith)
service_punch-stored r id (some g) now at reason d d' a h = (g, ground arith)

asked :
    (id : ℕ) (b : Bool) (a : PunchResponse)
    → a.summary_id ≡ (if b then some id else none)
    → asks_reason a ≡ true
    → b ≡ true
unfolding asks_reason
asked id true a h k = refl
asked id false a h k = ground arith

-- Where the answer to a live punch asks for a reason, the service takes a reason of the employee for
-- the day's summary, unless one is stored already.
pub service_punch-submit_reason :
    (r : Rules) (id : ℕ) (geo : Geo) (now at : Clock) (reason : Option Text) (d d' : Day)
    (a : PunchResponse) (given : Bool)
    → service_punch r id geo now at reason d ≡ stored d' a
    → asks_reason a ≡ true
    → submit_reason d'.summary true given ≡ (if given then already_given else accepted)
unfolding submit_reason
service_punch-submit_reason r id geo now at reason d d' a given h k =
    let (g, h') = service_punch-stored r id geo now at reason d d' a h in
    let (day, summary_id) = store_parts r id g at reason d d' a h' in
    let tardy = check_tardiness r.shift r.grace (with_log at d).logs at in
    let made = summarised r tardy reason (with_log at d) in
    let (s, e, ok) =
      prompt-is_eligible tardy made.1 (asked id (prompt tardy made.1).1 a summary_id k) in
    let kept : d'.summary ≡ some s =
      ap (λ (x : Day). x.summary) (sym day)
      ∙ (summarised-summary r tardy reason (with_log at d) (rw e refl) ∙ e) in
    rw kept (rw ok refl)

find_first-with_log :
    (at : Clock) (ls : List Log)
    → is_some (find_first_clock_in (ls ++ record { time = at; is_overridden = false } ∷ [])) ≡ true
unfolding find_first_clock_in
find_first-with_log at [] = refl
find_first-with_log at (l ∷ ls) = ground (arith, find_first-with_log at ls)

or_true : (b : Bool) → (b || true) ≡ true
or_true true = refl
or_true false = refl

summarised_with_reason :
    (r : Rules) (tardy : Option AttendanceStatus) (t : Text) (d : Day) (c : Clock)
    → find_first_clock_in d.logs ≡ some c
    → (s : Summary) × ((summarised r tardy (some t) d).0.summary ≡ some s)
      × (s.late_leave_reason ≡ some t)
unfolding summarised with_reason
summarised_with_reason r tardy t d c first =
    let (st, g) = generate_of_punch r d c first in
    (
      record (upsert_generated d st) { late_leave_reason = some t },
      rw (or_true (is_some tardy)) (rw g),
      refl,
    )

punches_excused :
    (first last : Option Moment) (e : ShiftEnd) (reason : Option Text)
    → truthy? reason ≡ true
    → punches_need_reason first last e reason ≡ false
unfolding punches_need_reason
punches_excused none last e reason h = refl
punches_excused (some f) none e reason h = refl
punches_excused (some f) (some l) e reason h = ground arith

reason_excuses :
    (kind : DayKind) (required : List Text) (e : ShiftEnd) (s : Summary)
    → truthy? s.late_leave_reason ≡ true
    → misses_reason kind required e s ≡ false
unfolding misses_reason
reason_excuses kind required e s h =
    ground (arith, punches_excused s.first_clock_in s.last_clock_out e s.late_leave_reason h)

-- A late-leave reason that a live punch is stored with stands in the day's summary, which the gate of
-- the month's submission then lets pass, whatever the shift's end and the leave types.
pub service_punch-misses_reason :
    (r : Rules) (id : ℕ) (geo : Geo) (now at : Clock) (t : Text) (d d' : Day) (a : PunchResponse)
    (kind : DayKind) (required : List Text) (e : ShiftEnd)
    → service_punch r id geo now at (some t) d ≡ stored d' a
    → truthy? (some t) ≡ true
    → (s : Summary) × (d'.summary ≡ some s)
      × (s.late_leave_reason ≡ some t)
      × (misses_reason kind required e s ≡ false)
service_punch-misses_reason r id geo now at t d d' a kind required e h n =
    let (g, h') = service_punch-stored r id geo now at (some t) d d' a h in
    let (day, summary_id) = store_parts r id g at (some t) d d' a h' in
    let tardy = check_tardiness r.shift r.grace (with_log at d).logs at in
    let (c, first) =
      some_of (find_first_clock_in (with_log at d).logs) (find_first-with_log at d.logs) in
    let (s, made, stamped) = summarised_with_reason r tardy t (with_log at d) c first in
    (
      s,
      ap (λ (x : Day). x.summary) (sym day) ∙ made,
      stamped,
      reason_excuses kind required e s (rw stamped n),
    )
