-- ===== src/Override/Save.antt =====
-- The part of `handleSave` of the monthly override page that decides what is sent
-- (frontend/src/app/dashboard/monthly-override/page.tsx).
pub mod Laws
pub mod Edits
use pwa_attendance_record_sy.Prelude.{
  ℕ, Bool, true, false, not, ◌&&◌, ◌||◌, List, [], ◌∷◌, map, Option, none, some, if◌then◌else◌,
  filter, field_of,
}
use pwa_attendance_record_sy.Text.{Text, text_eq, text_eq?, or_null}
use pwa_attendance_record_sy.Text.Numbers.{num_eq?}
use pwa_attendance_record_sy.Types.{BulkOverrideEntry}
use pwa_attendance_record_sy.Override.{DayRow, row_needs_punch_for_overtime}

-- One of the six fields of the row differs from the original's.
unfoldable pub fields_differ : DayRow → DayRow → Bool
fields_differ row orig =
    not (text_eq row.clock_in orig.clock_in)
    || not (text_eq row.clock_out orig.clock_out)
    || not (text_eq? row.leave_type orig.leave_type)
    || not (text_eq? row.remark orig.remark)
    || not (num_eq? row.overtime_hours orig.overtime_hours)
    || not (text_eq? row.late_leave_reason orig.late_leave_reason)

unfoldable pub entry_of : DayRow → BulkOverrideEntry
entry_of row = record {
  date = row.date;
  first_clock_in = or_null row.clock_in;
  last_clock_out = or_null row.clock_out;
  leave_type = row.leave_type;
  remark = row.remark;
  overtime_hours = row.overtime_hours;
  late_leave_reason = row.late_leave_reason;
}

-- The filter of `changedEntries`. The original of a row is the one at its index: with none there,
-- the test of an editable row throws, and `none` stands for that.
unfoldable pub changed_rows : List DayRow → List DayRow → Option (List DayRow)
changed_rows [] originals = some []
changed_rows (row ∷ rows) [] =
    let rest = changed_rows rows [] in if row.is_editable then none else rest
changed_rows (row ∷ rows) (orig ∷ originals) =
    let rest = changed_rows rows originals in
    if row.is_editable && fields_differ row orig then field_of (λ kept. row ∷ kept) rest else rest

-- `changedEntries`
unfoldable pub changed_entries : List DayRow → List DayRow → Option (List BulkOverrideEntry)
changed_entries rows originals = field_of (map entry_of) (changed_rows rows originals)

-- `overtimePunchErrorDates`
unfoldable pub overtime_punch_error_dates : List DayRow → List Text
overtime_punch_error_dates rows = map (λ row. row.date) (filter row_needs_punch_for_overtime rows)
