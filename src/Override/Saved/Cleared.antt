-- ===== src/Override/Saved/Cleared.antt =====
-- What becomes of a row of the monthly override page that is saved with both times blank
-- (frontend/src/app/dashboard/monthly-override/page.tsx, backend/app/services/attendance_service.py,
-- backend/app/services/reporting_service.py).
use pwa_attendance_record_sy.Prelude.{
  ◌<◌, ◌≡◌, refl, sym, ap, ◌∙◌, Bool, true, false, [], Option, none, some, field_of,
}
use pwa_attendance_record_sy.Text.{Text, truthy?}
use pwa_attendance_record_sy.Text.Decimal.{hh_mm}
use pwa_attendance_record_sy.Dates.Strings.{IsDay}
use pwa_attendance_record_sy.DayKinds.{Zone}
use pwa_attendance_record_sy.Types.{AttendanceStatus}
use pwa_attendance_record_sy.Backend.Calendar.{DayInfo, workday_entry}
use pwa_attendance_record_sy.Backend.Gate.{summary_entry}
use pwa_attendance_record_sy.Backend.Status.{Clock, calculate_status, status_of_punches}
use pwa_attendance_record_sy.Backend.Day.{
  Day, Rules, Entry, overridden, override_entry, daily_report, override_logs, stamped, moment_of,
  upsert_absent, find_first_clock_in, find_last_clock_out, upsert_generated, generate_daily_summary,
  generate_with, leave_type_of, overtime_of,
}
use pwa_attendance_record_sy.Backend.Day.Sync.{
  Fields, full_entry, fields-stamped, report_of_overridden, overridden_day,
}
use pwa_attendance_record_sy.Backend.Request.{json_num, read_entry}
use pwa_attendance_record_sy.Override.{DayRow, build_row}
use pwa_attendance_record_sy.Override.Save.{entry_of}
use pwa_attendance_record_sy.Override.Gate.Moments.{IsMoment, extract_time-iso}
use pwa_attendance_record_sy.Override.Saved.{Reads, reloaded}
use pwa_attendance_record_sy.Override.Saved.Clocks.{row_fields, read_entry-entry_of}

-- The entry of a row with both times blank
abbrev blank_entry : Fields → Entry
blank_entry f = full_entry none none f

blank-logs : (f : Fields) (d : Day) → (stamped (blank_entry f) d).logs ≡ d.logs
unfolding stamped override_logs
blank-logs f d = refl

generated_clock_in :
    (z : Zone) (is_hr_plus : Bool) (info : DayInfo) (d : Day) (st : AttendanceStatus) (c : Clock)
    → IsDay d.year d.month d.day
    → c.hours < 24
    → c.minutes < 60
    → find_first_clock_in d.logs ≡ some c
    → (build_row z is_hr_plus
        (workday_entry info)
        (some (summary_entry (upsert_generated d st)))).clock_in
      ≡ hh_mm c.hours c.minutes
unfolding build_row summary_entry upsert_generated moment_of
generated_clock_in z is_hr_plus info d st c day h m first =
    let valid : IsMoment (moment_of d c) = record {
      day = day;
      hours_below = h;
      minutes_below = m;
    } in
    rw first (extract_time-iso (moment_of d c) valid)

generate_of_nothing :
    (r : Rules) (d : Day)
    → find_first_clock_in d.logs ≡ none
    → find_last_clock_out d.logs ≡ none
    → truthy? (leave_type_of d.summary) ≡ false
    → overtime_of d.summary ≡ none
    → generate_daily_summary r d ≡ (d, false)
unfolding generate_daily_summary generate_with calculate_status status_of_punches
generate_of_nothing r d p q l o = rw (p, q) (rw l (rw o))

module _ (parse_time : Text → Option Clock) (reads : Reads parse_time) where
  -- A save of a row whose times were both cleared leaves the punches of the day: where there is one,
  -- the row shows the first of them again.
  pub reloaded-cleared :
      (z : Zone) (is_hr_plus : Bool) (info : DayInfo) (row : DayRow) (r r' : Rules)
      (by_hr expected : Bool) (e : Entry) (d d' : Day) (c : Clock)
      → IsDay d.year d.month d.day
      → c.hours < 24
      → c.minutes < 60
      → find_first_clock_in d.logs ≡ some c
      → row.clock_in ≡ []
      → row.clock_out ≡ []
      → read_entry parse_time (entry_of row) ≡ some e
      → override_entry r by_hr e d ≡ overridden d'
      → (reloaded z is_hr_plus info r' expected d').clock_in ≡ hh_mm c.hours c.minutes
  reloaded-cleared z is_hr_plus info row r r' by_hr expected e d d' c day h m first p q read
        stored =
      let f = row_fields row in
      let full = read_entry-entry_of parse_time reads row none none e tt tt p q read in
      let stored' = ap (λ x. override_entry r by_hr x d) (sym full) ∙ stored in
      let kept = ap find_first_clock_in (blank-logs f d) ∙ first in
      let (st, shown) =
        report_of_overridden r r' by_hr expected (blank_entry f) d d' c stored' kept in
      let same_day : IsDay (stamped (blank_entry f) d).year (stamped (blank_entry f) d).month
          (stamped (blank_entry f) d).day =
        unfold stamped in day in
      ap (λ o. (build_row z is_hr_plus (workday_entry info) (field_of summary_entry o)).clock_in)
        shown
      ∙ generated_clock_in z is_hr_plus info (stamped (blank_entry f) d) st c same_day h m kept

  -- A remark is lost where it is saved alone on a day on which the employee is expected: with no
  -- punch, leave type or overtime, the row has no remark when it is loaded again.
  pub reloaded-remark :
      (z : Zone) (is_hr_plus : Bool) (info : DayInfo) (row : DayRow) (r r' : Rules) (by_hr : Bool)
      (e : Entry) (d d' : Day)
      → find_first_clock_in d.logs ≡ none
      → find_last_clock_out d.logs ≡ none
      → row.clock_in ≡ []
      → row.clock_out ≡ []
      → truthy? row.leave_type ≡ false
      → row.overtime_hours ≡ none
      → read_entry parse_time (entry_of row) ≡ some e
      → override_entry r by_hr e d ≡ overridden d'
      → (reloaded z is_hr_plus info r' true d').remark ≡ none
  unfolding daily_report upsert_absent build_row summary_entry json_num
  reloaded-remark z is_hr_plus info row r r' by_hr e d d' first last p q l o read stored =
      let f = row_fields row in
      let full = read_entry-entry_of parse_time reads row none none e tt tt p q read in
      let stored' = ap (λ x. override_entry r by_hr x d) (sym full) ∙ stored in
      let s = stamped (blank_entry f) d in
      let fields = fields-stamped none none f d in
      let first' = ap find_first_clock_in (blank-logs f d) ∙ first in
      let last' = ap find_last_clock_out (blank-logs f d) ∙ last in
      let no_leave : truthy? (leave_type_of s.summary) ≡ false =
        ap (λ (x : Fields). truthy? x.leave_type) fields ∙ l in
      let no_overtime : overtime_of s.summary ≡ none =
        ap (λ (x : Fields). x.overtime_hours) fields ∙ ap json_num o in
      let same : d' ≡ s =
        overridden_day r by_hr (blank_entry f) d d' stored'
        ∙ ap (λ (x : Day × Bool). x.0)
            (generate_of_nothing r s first' last' no_leave no_overtime) in
      rw same (rw (generate_of_nothing r' s first' last' no_leave no_overtime))
