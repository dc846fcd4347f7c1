-- ===== src/Backend/Day/Sync.antt =====
-- What the daily report makes of a day after an override (backend/app/services/reporting_service.py,
-- backend/app/services/attendance_service.py).
use pwa_attendance_record_sy.Prelude.{
  ◌≡◌, refl, ap, ◌∙◌, Bool, true, Option, none, some, arith, is_some, maybe_field,
}
use pwa_attendance_record_sy.Text.{Text}
use pwa_attendance_record_sy.Text.Numbers.{Num}
use pwa_attendance_record_sy.DayKinds.{DayKind}
use pwa_attendance_record_sy.Types.{AttendanceStatus}
use pwa_attendance_record_sy.Backend.Gate.{Summary}
use pwa_attendance_record_sy.Backend.Status.{Clock, Shift, calculate_status, status_of_punches}
use pwa_attendance_record_sy.Backend.Day.{
  Day, Rules, find_first_clock_in, find_last_clock_out, leave_type_of, overtime_of,
  upsert_generated, generate_with, generate_daily_summary, daily_report, Entry, placeholder, stamp,
  stamp_summary, stamped, overridden, override_entry,
}

-- The four fields that a user enters
pub record Fields : Type 0 where
  pub leave_type : Option Text
  pub remark : Option Text
  pub overtime_hours : Option Num
  pub late_leave_reason : Option Text

abbrev pub fields_of : Option Summary → Fields
fields_of s = record {
  leave_type = leave_type_of s;
  remark = maybe_field (λ (x : Summary). x.remark) s;
  overtime_hours = overtime_of s;
  late_leave_reason = maybe_field (λ (x : Summary). x.late_leave_reason) s;
}

-- An entry with all its keys, as the client sends it
abbrev pub full_entry : Option Clock → Option Clock → Fields → Entry
full_entry first last f = record {
  first_clock_in = first;
  last_clock_out = last;
  leave_type = some f.leave_type;
  remark = some f.remark;
  overtime_hours = some f.overtime_hours;
  late_leave_reason = some f.late_leave_reason;
}

placeholder-fields :
    (first last : Option Clock) (l m r : Option Text) (o : Option Num) (d : Day)
    → let f : Fields = record {
      leave_type = l;
      remark = m;
      overtime_hours = o;
      late_leave_reason = r;
    } in
      fields_of (placeholder (full_entry first last f) d) ≡ f
unfolding placeholder
placeholder-fields first last none none none none d = refl
placeholder-fields first last none none none (some o) d = refl
placeholder-fields first last none none (some r) o d = ground arith
placeholder-fields first last none (some m) r o d = refl
placeholder-fields first last (some l) m r o d = refl

-- A full entry sets all four.
stamped-fields :
    (first last : Option Clock) (f : Fields) (d : Day) (s : Option Summary)
    → fields_of (stamp_summary (full_entry first last f) d s) ≡ f
unfolding stamp_summary stamp
stamped-fields first last f d none =
    placeholder-fields first last f.leave_type f.remark f.late_leave_reason f.overtime_hours d
stamped-fields first last f d (some s) = refl

pub fields-stamped :
    (first last : Option Clock) (f : Fields) (d : Day)
    → fields_of (stamped (full_entry first last f) d).summary ≡ f
unfolding stamped
fields-stamped first last f d = stamped-fields first last f d d.summary

status_of_some :
    (e : Shift) (grace : _) (kind : DayKind) (c : Clock) (last : Option Clock)
    → is_some (status_of_punches e grace kind (some c) last) ≡ true
unfolding status_of_punches
status_of_some e grace kind c none = refl
status_of_some e grace kind c (some l) = refl

pub some_of {ℓ} : {A : Type ℓ} (o : Option A) → is_some o ≡ true → (a : A) × (o ≡ some a)
some_of none h = cc
some_of (some a) h = (a, refl)

calculated-is_some :
    (r : Rules) (leave_type : Option Text) (first last : Option Clock) (c : Clock)
    → first ≡ some c
    → is_some (calculate_status r.shift r.grace r.kind leave_type first last) ≡ true
unfolding calculate_status
calculated-is_some r leave_type first last c e =
    rw e (ground (arith, status_of_some r.shift r.grace r.kind c last))

abbrev status_from : Rules → Day → Option AttendanceStatus
status_from r d =
    calculate_status r.shift r.grace r.kind (leave_type_of d.summary) (find_first_clock_in d.logs)
      (find_last_clock_out d.logs)

-- A day with a punch has a summary, of its punches and the fields that it had.
pub generate_of_punch :
    (r : Rules) (d : Day) (c : Clock)
    → find_first_clock_in d.logs ≡ some c
    → (st : AttendanceStatus) × (generate_daily_summary r d
        ≡ (record d { summary = some (upsert_generated d st) }, true))
unfolding generate_daily_summary generate_with
generate_of_punch r d c e =
    let (st, h) = some_of (status_from r d) (
      calculated-is_some r (leave_type_of d.summary) (find_first_clock_in d.logs)
        (find_last_clock_out d.logs) c e) in
    (st, ap (λ o. generate_with o d) h)

report_of_generated :
    (r : Rules) (expected : Bool) (d d' : Day) (st : AttendanceStatus)
    → generate_daily_summary r d ≡ (d', true)
    → d'.summary ≡ some (upsert_generated d st)
    → (daily_report r expected d).1 ≡ some (upsert_generated d st)
unfolding daily_report
report_of_generated r expected d d' st g e = rw g e

-- The report of a day with a punch shows it by its punches and fields.
pub report_of_punch :
    (r : Rules) (expected : Bool) (d : Day) (c : Clock)
    → find_first_clock_in d.logs ≡ some c
    → (st : AttendanceStatus) × ((daily_report r expected d).1 ≡ some (upsert_generated d st))
report_of_punch r expected d c e =
    let (st, g) = generate_of_punch r d c e in
    (
      st,
      report_of_generated r expected d (record d { summary = some (upsert_generated d st) }) st g
          refl,
    )

pub overridden_day :
    (r : Rules) (is_hr_plus : Bool) (e : Entry) (d d' : Day)
    → override_entry r is_hr_plus e d ≡ overridden d'
    → d' ≡ (generate_daily_summary r (stamped e d)).0
unfolding override_entry
overridden_day r is_hr_plus e d d' h = ground arith

-- The report of a day that an entry with a punch has overridden, under the rules in force then
pub report_of_overridden :
    (r r' : Rules) (is_hr_plus expected : Bool) (e : Entry) (d d' : Day) (c : Clock)
    → override_entry r is_hr_plus e d ≡ overridden d'
    → find_first_clock_in (stamped e d).logs ≡ some c
    → (st : AttendanceStatus) × ((daily_report r' expected d').1
        ≡ some (upsert_generated (stamped e d) st))
unfolding upsert_generated
report_of_overridden r r' is_hr_plus expected e d d' c h first =
    let (st, g) = generate_of_punch r (stamped e d) c first in
    let now : d' ≡ record (stamped e d) { summary = some (upsert_generated (stamped e d) st) } =
      overridden_day r is_hr_plus e d d' h ∙ ap (λ (x : Day × Bool). x.0) g in
    let (st', shown) =
      report_of_punch r' expected
        (record (stamped e d) { summary = some (upsert_generated (stamped e d) st) }) c first in
    (st', rw now shown)
