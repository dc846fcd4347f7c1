-- ===== src/Backend/Day.antt =====
-- What the service keeps of one employee's day, and what it does with it: the override of
-- backend/app/services/attendance_service.py, the recalculation and the daily report of
-- backend/app/services/reporting_service.py, over the repositories of backend/app/repositories.
pub mod Punches
pub mod Sync
use pwa_attendance_record_sy.Prelude.{
  ℕ, ◌/◌, ◌%◌, Bool, true, false, not, ◌&&◌, ◌||◌, List, [], ◌∷◌, ◌++◌, map, Option, none, some,
  ◌==◌, ltb, if◌then◌else◌, is_some, or_else, field_of, maybe_field,
}
use pwa_attendance_record_sy.Text.{Text}
use pwa_attendance_record_sy.Text.Decimal.{two_digits}
use pwa_attendance_record_sy.Text.Numbers.{Num}
use pwa_attendance_record_sy.Dates.{date_string}
use pwa_attendance_record_sy.DayKinds.{DayKind, rest_day, regular_leave}
use pwa_attendance_record_sy.Types.{AttendanceStatus, absent}
use pwa_attendance_record_sy.Backend.Gate.{Moment, Summary}
use pwa_attendance_record_sy.Backend.Status.{Clock, value, Shift, calculate_status}

-- An entry of the log, on the day
pub record Log : Type 0 where
  pub time : Clock
  pub is_overridden : Bool

pub record Day : Type 0 where
  pub year : ℕ
  pub month : ℕ
  pub day : ℕ
  pub logs : List Log
  pub summary : Option Summary

-- What the calculation reads besides the day: the shift, the grace period and the kind of the day.
pub record Rules : Type 0 where
  pub shift : Shift
  pub grace : ℕ
  pub kind : DayKind

-- What `isoformat()` writes after the minutes
unfoldable pub rest_text : ℕ → Text
unfolding two_digits
rest_text micros =
    let us = micros % 1_000_000 in
    let fraction =
      b'.' ∷ (two_digits (us / 10_000) ++ (two_digits (us / 100 % 100) ++ two_digits (us % 100))) in
    b':' ∷ (two_digits (micros / 1_000_000) ++ (if us == 0 then [] else fraction))

unfoldable pub moment_of : Day → Clock → Moment
unfolding rest_text
moment_of d c = record {
  year = d.year;
  month = d.month;
  day = d.day;
  hours = c.hours;
  minutes = c.minutes;
  rest = rest_text c.micros;
}

abbrev pub earlier : Clock → Option Clock → Clock
earlier c none = c
earlier c (some e) = if ltb (value e) (value c) then e else c

abbrev pub later : Clock → Option Clock → Clock
later c none = c
later c (some e) = if ltb (value c) (value e) then e else c

-- `find_first_clock_in` and `find_last_clock_out`, of the entries that are not overridden
unfoldable pub find_first_clock_in : List Log → Option Clock
find_first_clock_in [] = none
find_first_clock_in (l ∷ ls) =
    let rest = find_first_clock_in ls in
    if l.is_overridden then rest else some (earlier l.time rest)

unfoldable pub find_last_clock_out : List Log → Option Clock
find_last_clock_out [] = none
find_last_clock_out (l ∷ ls) =
    let rest = find_last_clock_out ls in if l.is_overridden then rest else some (later l.time rest)

abbrev pub leave_type_of : Option Summary → Option Text
leave_type_of s = maybe_field (λ (x : Summary). x.leave_type) s

abbrev pub overtime_of : Option Summary → Option Num
overtime_of s = maybe_field (λ (x : Summary). x.overtime_hours) s

-- `upsert_summary` of `generate_daily_summary`
unfoldable pub upsert_generated : Day → AttendanceStatus → Summary
unfolding moment_of
upsert_generated d status = record {
  date = date_string d.year d.month d.day;
  first_clock_in = field_of (moment_of d) (find_first_clock_in d.logs);
  last_clock_out = field_of (moment_of d) (find_last_clock_out d.logs);
  status = status;
  leave_type = leave_type_of d.summary;
  remark = maybe_field (λ (x : Summary). x.remark) d.summary;
  overtime_hours = overtime_of d.summary;
  late_leave_reason = maybe_field (λ (x : Summary). x.late_leave_reason) d.summary;
}

-- `generate_daily_summary` from the status on: the day, and whether a summary is returned
unfoldable pub generate_with : Option AttendanceStatus → Day → Day × Bool
unfolding upsert_generated
generate_with (some status) d = (record d { summary = some (upsert_generated d status) }, true)
generate_with none d =
    if is_some (overtime_of d.summary)
    then (
      record d {
        summary =
            some (
              upsert_generated d (or_else (field_of (λ (x : Summary). x.status) d.summary) absent));
      },
      true,
    )
    else (d, false)

-- `generate_daily_summary`
unfoldable pub generate_daily_summary : Rules → Day → Day × Bool
generate_daily_summary r d =
    generate_with
      (calculate_status r.shift r.grace r.kind (leave_type_of d.summary)
        (find_first_clock_in d.logs) (find_last_clock_out d.logs))
      d

-- The other `upsert_summary` of `generate_all_summaries`: its defaults clear the leave type and the
-- remark, and keep the overtime and the reason.
unfoldable pub upsert_absent : Day → Day
upsert_absent d = record d {
  summary = some (record {
    date = date_string d.year d.month d.day;
    first_clock_in = none;
    last_clock_out = none;
    status = absent;
    leave_type = none;
    remark = none;
    overtime_hours = overtime_of d.summary;
    late_leave_reason = maybe_field (λ (x : Summary). x.late_leave_reason) d.summary;
  });
}

-- What the daily report does with the day and makes of it, for an employee who is (`expected`) or is
-- not to work on it: the calendar calls it a workday, and the employment has not ended.
unfoldable pub daily_report : Rules → Bool → Day → Day × Option Summary
unfolding upsert_absent
daily_report r expected d =
    let (d', returned) = generate_daily_summary r d in
    if returned
    then (d', d'.summary)
    else if expected
    then (upsert_absent d', (upsert_absent d').summary)
    else (d', none)

-- An entry of the override, after `model_dump(exclude_unset=True)`: the outer `none` is an absent key.
pub record Entry : Type 0 where
  pub first_clock_in : Option Clock
  pub last_clock_out : Option Clock
  pub leave_type : Option (Option Text)
  pub remark : Option (Option Text)
  pub overtime_hours : Option (Option Num)
  pub late_leave_reason : Option (Option Text)

abbrev pub fresh : Option Clock → List Log
fresh none = []
fresh (some c) = record { time = c; is_overridden = false } ∷ []

abbrev pub has_punch : Entry → Bool
has_punch e = is_some e.first_clock_in || is_some e.last_clock_out

abbrev pub has_field : Entry → Bool
has_field e =
    is_some e.leave_type
    || is_some e.remark
    || is_some e.overtime_hours
    || is_some e.late_leave_reason

-- The punches of an entry
unfoldable pub override_logs : Entry → List Log → List Log
override_logs e logs =
    if has_punch e
    then map (λ (l : Log). record l { is_overridden = true }) logs
      ++ (fresh e.first_clock_in ++ fresh e.last_clock_out)
    else logs

-- The summary with the fields of an entry, where the day has one
unfoldable pub stamp : Entry → Summary → Summary
stamp e s =
    let final_leave = or_else e.leave_type s.leave_type in
    let idle = not (is_some final_leave) && not (has_punch e) in
    record s {
      status =
          if idle && not (is_some s.first_clock_in) && not (is_some s.last_clock_out)
          then absent
          else s.status;
      leave_type = final_leave;
      remark = or_else e.remark s.remark;
      overtime_hours = or_else e.overtime_hours s.overtime_hours;
      late_leave_reason = or_else e.late_leave_reason s.late_leave_reason;
    }

-- The summary made for an entry, where the day has none and some value is given
unfoldable pub placeholder : Entry → Day → Option Summary
placeholder e d =
    let leave_type = or_else e.leave_type none in
    let remark = or_else e.remark none in
    let overtime_hours = or_else e.overtime_hours none in
    let late_leave_reason = or_else e.late_leave_reason none in
    if is_some leave_type || is_some remark || is_some overtime_hours || is_some late_leave_reason
    then some (record {
      date = date_string d.year d.month d.day;
      first_clock_in = none;
      last_clock_out = none;
      status = absent;
      leave_type = leave_type;
      remark = remark;
      overtime_hours = overtime_hours;
      late_leave_reason = late_leave_reason;
    })
    else none

unfoldable pub stamp_summary : Entry → Day → Option Summary → Option Summary
unfolding stamp placeholder
stamp_summary e d none = placeholder e d
stamp_summary e d (some s) = some (stamp e s)

-- The day before its recalculation
unfoldable pub stamped : Entry → Day → Day
unfolding override_logs stamp_summary
stamped e d = record d {
  logs = override_logs e d.logs;
  summary = if has_field e then stamp_summary e d d.summary else d.summary;
}

pub data Outcome : Type 0 where
  skipped regular_leave_refused rest_day_refused : Outcome
  overridden : Day → Outcome

-- One round of the loop of `bulk_override_punches`. (A refusal ends the call; what earlier rounds have
-- stored stays.)
unfoldable pub override_entry : Rules → Bool → Entry → Day → Outcome
unfolding stamped
override_entry r is_hr_plus e d =
    if not (has_punch e) && not (has_field e) then skipped else elim r.kind [
      | regular_leave ↦ regular_leave_refused
      | rest_day ↦
          if is_hr_plus
          then overridden (generate_daily_summary r (stamped e d)).0
          else rest_day_refused
      | _ ↦ overridden (generate_daily_summary r (stamped e d)).0
    ]
