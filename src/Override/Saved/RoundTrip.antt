-- ===== src/Override/Saved/RoundTrip.antt =====
-- What a row of the monthly override page shows after it was saved and loaded again
-- (frontend/src/app/dashboard/monthly-override/page.tsx, backend/app/services/attendance_service.py,
-- backend/app/services/reporting_service.py).
use pwa_attendance_record_sy.Prelude.{
  ◌≡◌, refl, sym, ap, subst, ◌∙◌, Bool, true, Option, none, some, field_of, is_some, ◌||◌,
}
use pwa_attendance_record_sy.Text.{Text}
use pwa_attendance_record_sy.Dates.Strings.{IsDay}
use pwa_attendance_record_sy.DayKinds.{Zone}
use pwa_attendance_record_sy.Types.{AttendanceStatus}
use pwa_attendance_record_sy.Backend.Calendar.{DayInfo, workday_entry}
use pwa_attendance_record_sy.Backend.Gate.{summary_entry}
use pwa_attendance_record_sy.Backend.Status.{Clock}
use pwa_attendance_record_sy.Backend.Day.{
  Day, Rules, Entry, overridden, override_entry, stamped, find_first_clock_in, find_last_clock_out,
  upsert_generated,
}
use pwa_attendance_record_sy.Backend.Day.Punches.{first_of, last_of, find_first-override_logs}
use pwa_attendance_record_sy.Backend.Day.Sync.{
  Fields, fields_of, full_entry, fields-stamped, report_of_overridden, some_of,
}
use pwa_attendance_record_sy.Backend.Request.{read_entry}
use pwa_attendance_record_sy.Override.{DayRow, build_row}
use pwa_attendance_record_sy.Override.Save.{entry_of}
use pwa_attendance_record_sy.Override.Saved.{Time, clock_at, input_of, Reads, reloaded}
use pwa_attendance_record_sy.Override.Saved.Clocks.{
  IsTime?, row_fields, read_entry-entry_of, shown_times, IsShown, IsShown-entry,
}

-- The row shows the two times and the four fields.
pub record Shows (row : DayRow) (times : Option Time × Option Time) (f : Fields) : Type 0 where
  pub clock_in : row.clock_in ≡ input_of times.0
  pub clock_out : row.clock_out ≡ input_of times.1
  pub leave_type : row.leave_type ≡ f.leave_type
  pub remark : row.remark ≡ f.remark
  pub overtime_hours : row.overtime_hours ≡ f.overtime_hours
  pub late_leave_reason : row.late_leave_reason ≡ f.late_leave_reason

-- The row of a summary
Shows-generated :
    (z : Zone) (is_hr_plus : Bool) (info : DayInfo) (d : Day) (st : AttendanceStatus)
    (times : Option Time × Option Time)
    → IsShown d st times
    → Shows
        (build_row z is_hr_plus (workday_entry info) (some (summary_entry (upsert_generated d st))))
        times
        (fields_of d.summary)
unfolding build_row IsShown summary_entry upsert_generated
Shows-generated z is_hr_plus info d st times (p, q) = record {
  clock_in = p;
  clock_out = q;
  leave_type = refl;
  remark = refl;
  overtime_hours = refl;
  late_leave_reason = refl;
}

first_present :
    (a b : Option Clock) → (is_some a || is_some b) ≡ true → is_some (first_of a b) ≡ true
first_present none (some b) h = refl
first_present none none h = h
first_present (some a) b h = refl

present_field :
    (a b : Option Time)
    → (is_some a || is_some b) ≡ true
    → (is_some (field_of clock_at a) || is_some (field_of clock_at b)) ≡ true
present_field none none h = h
present_field none (some b) h = refl
present_field (some a) b h = refl

Shows-full_entry :
    (z : Zone) (is_hr_plus : Bool) (info : DayInfo) (first last : Option Time) (f : Fields)
    (r r' : Rules) (by_hr expected : Bool) (d d' : Day)
    → IsDay d.year d.month d.day
    → IsTime? first
    → IsTime? last
    → (is_some first || is_some last) ≡ true
    → override_entry r by_hr (full_entry (field_of clock_at first) (field_of clock_at last) f) d
      ≡ overridden d'
    → Shows (reloaded z is_hr_plus info r' expected d') (shown_times first last) f
Shows-full_entry z is_hr_plus info first last f r r' by_hr expected d d' day v w some_time h =
    let a = field_of clock_at first in
    let b = field_of clock_at last in
    let e = full_entry a b f in
    let present = present_field first last some_time in
    let (p, q) = find_first-override_logs e d.logs present in
    let (c, found) = some_of (first_of a b) (first_present a b present) in
    let first_log : find_first_clock_in (stamped e d).logs ≡ first_of a b = unfold stamped in p in
    let last_log : find_last_clock_out (stamped e d).logs ≡ last_of a b = unfold stamped in q in
    let (st, shown) = report_of_overridden r r' by_hr expected e d d' c h (first_log ∙ found) in
    let same_day : IsDay (stamped e d).year (stamped e d).month (stamped e d).day =
      unfold stamped in day in
    let times =
      IsShown-entry (stamped e d) st first last same_day v w some_time first_log last_log in
    let row = Shows-generated z is_hr_plus info (stamped e d) st (shown_times first last) times in
    subst
      (λ o.
        Shows (build_row z is_hr_plus (workday_entry info) (field_of summary_entry o))
          (shown_times first last) f)
      (sym shown) (subst (Shows _ (shown_times first last)) (fields-stamped a b f d) row)

module _ (parse_time : Text → Option Clock) (reads : Reads parse_time) where
  -- A row that is saved with at least one time, and that the service takes and stores, shows when it
  -- is loaded again the leave type, remark, overtime and reason that were saved, and the times: two
  -- in their order as they were, two in the other order exchanged, of two equal ones the clock-in
  -- alone, and a single time as the clock-in. The parse of a time reads "HH:MM" as that time.
  pub reloaded-Shows :
      (z : Zone) (is_hr_plus : Bool) (info : DayInfo) (row : DayRow) (first last : Option Time)
      (r r' : Rules) (by_hr expected : Bool) (e : Entry) (d d' : Day)
      → IsDay d.year d.month d.day
      → IsTime? first
      → IsTime? last
      → (is_some first || is_some last) ≡ true
      → row.clock_in ≡ input_of first
      → row.clock_out ≡ input_of last
      → read_entry parse_time (entry_of row) ≡ some e
      → override_entry r by_hr e d ≡ overridden d'
      → Shows (reloaded z is_hr_plus info r' expected d') (shown_times first last) (row_fields row)
  reloaded-Shows z is_hr_plus info row first last r r' by_hr expected e d d' day v w some_time p q
        read stored =
      let full = read_entry-entry_of parse_time reads row first last e v w p q read in
      Shows-full_entry z is_hr_plus info first last (row_fields row) r r' by_hr expected d d' day v
        w some_time (ap (λ x. override_entry r by_hr x d) (sym full) ∙ stored)
