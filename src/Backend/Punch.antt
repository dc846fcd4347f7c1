-- ===== src/Backend/Punch.antt =====
-- The live punch of backend/app/services/attendance_service.py on one employee's day, and the
-- acceptance of a reason by backend/app/services/reason_service.py.
pub mod Prompt
use pwa_attendance_record_sy.Prelude.{
  ℕ, ◌+◌, ◌*◌, ◌-◌, Bool, true, false, not, ◌&&◌, ◌||◌, List, [], ◌∷◌, ◌++◌, Option, none, some,
  ltb, leb, if◌then◌else◌, is_some, length, any, field_of, maybe_field,
}
use pwa_attendance_record_sy.Text.{Text}
use pwa_attendance_record_sy.DayKinds.{DayKind, rest_day, regular_leave}
use pwa_attendance_record_sy.Types.{
  WorkMode, AttendanceStatus, late, early_leave, late_and_early_leave, PunchResponse,
}
use pwa_attendance_record_sy.Backend.Gate.{Summary}
use pwa_attendance_record_sy.Backend.Status.{Clock, value, Shift, grace_deadline}
use pwa_attendance_record_sy.Backend.Day.{Log, Day, Rules, generate_daily_summary}

-- `REASON_ELIGIBLE_STATUSES`
unfoldable pub is_eligible : AttendanceStatus → Bool
is_eligible late = true
is_eligible early_leave = true
is_eligible late_and_early_leave = true
is_eligible _ = false

-- `DUPLICATE_PUNCH_WINDOW_SECONDS`, in microseconds
abbrev pub window : ℕ
window = 5_000_000

-- `abs((now - log.timestamp).total_seconds()) < DUPLICATE_PUNCH_WINDOW_SECONDS`
unfoldable pub is_near : Clock → Clock → Bool
unfolding value
is_near a b = ltb (value a) (value b + window) && ltb (value b) (value a + window)

unfoldable pub is_duplicate : Clock → List Log → Bool
unfolding is_near
is_duplicate now logs = any (λ (l : Log). not l.is_overridden && is_near now l.time) logs

-- `_check_tardiness`, of the log's time and the day's entries, overridden ones included
unfoldable pub check_tardiness : Shift → ℕ → List Log → Clock → Option AttendanceStatus
unfolding grace_deadline value
check_tardiness e grace logs at =
    if leb (length logs) 1
    then (if ltb (grace_deadline e.start grace) (value at) then some late else none)
    else if ltb (value at) e.finish
    then some early_leave
    else none

-- The second `upsert_summary` of `punch`: the overtime is kept.
unfoldable pub with_reason : Option Text → Option Summary → Option Summary
with_reason (some reason) (some s) = some (record s { late_leave_reason = some reason })
with_reason _ s = s

-- The tardiness that is answered, and whether the summary's id is
unfoldable pub prompt : Option AttendanceStatus → Option Summary → Option AttendanceStatus × Bool
unfolding is_eligible
prompt none s = (none, false)
prompt (some t) none = (none, false)
prompt (some t) (some s) = if is_eligible s.status then (some t, true) else (none, false)

-- The part of `punch` behind the log: the summary is generated for a tardy punch or one with a reason.
unfoldable pub summarised :
    Rules → Option AttendanceStatus → Option Text → Day → Day × Option Summary
unfolding with_reason
summarised r tardy reason d =
    if is_some tardy || is_some reason
    then (let (d', returned) = generate_daily_summary r d in
        let s = with_reason reason (if returned then d'.summary else none) in
        (record d' { summary = if returned then s else d'.summary }, s))
    else (d, none)

pub data PunchRefusal : Type 0 where
  regular_leave_refused rest_day_refused duplicate no_office : PunchRefusal

pub data PunchOutcome : Type 0 where
  refused : PunchRefusal → PunchOutcome
  stored : Day → PunchResponse → PunchOutcome

-- The result of `determine_work_mode`; the distance is a numeral, never computed with
pub record GeoResult : Type 0 where
  pub work_mode : WorkMode
  pub distance_km : Text
  pub is_low_accuracy : Bool

-- `none` without an office location
abbrev pub Geo : Type 0
Geo = Option GeoResult

-- The day with the log of a punch
abbrev pub with_log : Clock → Day → Day
with_log at d = record d { logs = d.logs ++ record { time = at; is_overridden = false } ∷ [] }

-- `punch` from the log on; `id` is the id of the day's summary.
unfoldable pub store_punch : Rules → ℕ → GeoResult → Clock → Option Text → Day → PunchOutcome
unfolding check_tardiness summarised prompt
store_punch r id geo at reason d =
    let tardy = check_tardiness r.shift r.grace (with_log at d).logs at in
    let (d', s) = summarised r tardy reason (with_log at d) in
    let (status, asked) = prompt tardy s in
    stored d' (record {
      work_mode = geo.work_mode;
      distance_km = geo.distance_km;
      is_low_accuracy = geo.is_low_accuracy;
      tardiness_status = status;
      summary_id = if asked then some id else none;
    })

-- `punch`. The clock is read for the test on duplicates (`now`) and again for the log (`at`).
unfoldable pub service_punch : Rules → ℕ → Geo → Clock → Clock → Option Text → Day → PunchOutcome
unfolding is_duplicate
service_punch r id geo now at reason d = elim r.kind [
  | regular_leave ↦ refused regular_leave_refused
  | rest_day ↦ refused rest_day_refused
  | _ ↦
      if is_duplicate now d.logs
      then refused duplicate
      else elim geo [ none ↦ refused no_office | some g ↦ store_punch r id g at reason d ]
]

pub data ReasonOutcome : Type 0 where
  accepted no_summary not_own not_eligible already_given : ReasonOutcome

-- `submit_reason`, by the summary that the id names, whether it is the employee's own, and whether a
-- reason is stored for it
unfoldable pub submit_reason : Option Summary → Bool → Bool → ReasonOutcome
submit_reason none own given = no_summary
submit_reason (some s) own given =
    if not own
    then not_own
    else if not (is_eligible s.status)
    then not_eligible
    else if given
    then already_given
    else accepted
