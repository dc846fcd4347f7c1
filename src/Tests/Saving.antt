-- ===== src/Tests/Saving.antt =====
-- Rows of the monthly override page, saved and loaded again
-- (frontend/src/app/dashboard/monthly-override/page.tsx, backend/app/services/attendance_service.py).
use pwa_attendance_record_sy.Prelude.{
  List, all, ◌+◌, ◌*◌, ◌-◌, ◌≡◌, refl, true, false, [], ◌∷◌, Option, none, some, arith,
}
use pwa_attendance_record_sy.Text.{Text, codes, includes}
use pwa_attendance_record_sy.Text.Decimal.{hh_mm, hh_mm_lem}
use pwa_attendance_record_sy.Text.Numbers.{tenths}
use pwa_attendance_record_sy.DayKinds.{workday}
use pwa_attendance_record_sy.Backend.Status.{Clock}
use pwa_attendance_record_sy.Backend.Day.{
  Day, Rules, Entry, override_entry, generate_daily_summary, stamped, find_first_clock_in,
  find_last_clock_out,
}
use pwa_attendance_record_sy.Backend.Day.Sync.{full_entry}
use pwa_attendance_record_sy.Backend.Request.{json_num, read_entry, is_valid}
use pwa_attendance_record_sy.Override.{DayRow}
use pwa_attendance_record_sy.Override.Save.{entry_of, changed_entries}
use pwa_attendance_record_sy.Types.{BulkOverrideEntry}
use pwa_attendance_record_sy.Override.Edit.{Edit, overtime, remark}
use pwa_attendance_record_sy.Override.Save.Edits.{apply_edits}
use pwa_attendance_record_sy.Override.View.{is_offered}
use pwa_attendance_record_sy.Override.View.Accepted.{changed_entries-is_valid}
use pwa_attendance_record_sy.Override.Saved.{Time, Reads, clock_at, reloaded}
use pwa_attendance_record_sy.Override.Saved.Clocks.{shown_times, row_fields}
use pwa_attendance_record_sy.Override.Saved.RoundTrip.{Shows, reloaded-Shows}
use pwa_attendance_record_sy.Override.Saved.Cleared.{reloaded-cleared, reloaded-remark}
use pwa_attendance_record_sy.Tests.Monthly.{taipei, wednesday, row_of, two_rows}

-- A parse of "HH:MM"
parse_time : Text → Option Clock
parse_time (a ∷ b ∷ c ∷ d ∷ e ∷ []) = some (record {
  hours = (a - b'0') * 10 + (b - b'0');
  minutes = (d - b'0') * 10 + (e - b'0');
  micros = 0;
})
parse_time _ = none

parse_time-Reads : Reads parse_time
unfolding parse_time
parse_time-Reads t v = rw (hh_mm_lem t.hours t.minutes v.hours_below v.minutes_below) (ground arith)

abbrev pub rules : Rules
rules = record {
  shift = record { start = 540 * 60_000_000; finish = 1050 * 60_000_000 };
  grace = 5;
  kind = workday;
}

abbrev pub first_of_july : Day
first_of_july = record {
  year = 2026;
  month = 7;
  day = 1;
  logs =
      record {
        time = record { hours = 9; minutes = 2; micros = 31_000_000 };
        is_overridden = false;
      }
      ∷ [];
  summary = none;
}

-- Both times, the remark and two hours and a half of overtime
abbrev worked : DayRow
worked = record (row_of (codes "2026-07-01")) {
  clock_in = codes "09:00";
  clock_out = codes "18:00";
  remark = some (codes "on site");
  overtime_hours = some (tenths 25);
}

abbrev at_nine : Time
at_nine = record { hours = 9; minutes = 0 }

abbrev at_six : Time
at_six = record { hours = 18; minutes = 0 }

abbrev worked_entry : Entry
worked_entry = full_entry (some (clock_at at_nine)) (some (clock_at at_six)) (row_fields worked)

reloaded-Shows_example :
    Shows
      (reloaded taipei false wednesday rules true
        (generate_daily_summary rules (stamped worked_entry first_of_july)).0)
      (shown_times (some at_nine) (some at_six))
      (row_fields worked)
unfolding read_entry entry_of parse_time override_entry json_num hh_mm
reloaded-Shows_example =
    reloaded-Shows parse_time parse_time-Reads taipei false wednesday worked (some at_nine)
      (some at_six) rules rules false true worked_entry first_of_july
      (generate_daily_summary rules (stamped worked_entry first_of_july)).0 (omega arith)
      (omega arith) (omega arith) refl refl refl refl refl

-- The row with its times cleared
abbrev cleared : DayRow
cleared = record worked { clock_in = []; clock_out = []; overtime_hours = none }

abbrev cleared_entry : Entry
cleared_entry = full_entry none none (row_fields cleared)

reloaded-cleared_example :
    (reloaded taipei false wednesday rules true
      (generate_daily_summary rules (stamped cleared_entry first_of_july)).0).clock_in
    ≡ hh_mm 9 2
unfolding read_entry entry_of parse_time override_entry json_num find_first_clock_in
reloaded-cleared_example =
    reloaded-cleared parse_time parse_time-Reads taipei false wednesday cleared rules rules false
      true cleared_entry first_of_july
      (generate_daily_summary rules (stamped cleared_entry first_of_july)).0
      (record { hours = 9; minutes = 2; micros = 31_000_000 }) (omega arith) (omega arith)
      (omega arith) refl refl refl refl refl

abbrev unpunched : Day
unpunched = record first_of_july { logs = [] }

reloaded-remark_example :
    (reloaded taipei false wednesday rules true
      (generate_daily_summary rules (stamped cleared_entry unpunched)).0).remark
    ≡ none
unfolding read_entry entry_of parse_time override_entry json_num find_first_clock_in
    find_last_clock_out
reloaded-remark_example =
    reloaded-remark parse_time parse_time-Reads taipei false wednesday cleared rules rules false
      cleared_entry unpunched (generate_daily_summary rules (stamped cleared_entry unpunched)).0
      refl refl refl refl refl refl refl refl

-- The month of two days, edited by the options that the page offers
abbrev edits : List (Text × Edit)
edits =
    (codes "2026-07-01", overtime (codes "2.5")) ∷ (codes "2026-07-02", remark (codes "out")) ∷ []

changed_entries-is_valid_example :
    (entries : List BulkOverrideEntry) × (changed_entries (apply_edits edits two_rows) two_rows
      ≡ some entries)
    × (all is_valid entries ≡ true)
unfolding is_offered is_valid includes entry_of
changed_entries-is_valid_example =
    changed_entries-is_valid (codes "特休" ∷ []) edits two_rows refl refl (refl, (refl, tt))
