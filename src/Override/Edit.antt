-- ===== src/Override/Edit.antt =====
-- The input handlers of the monthly override page
-- (frontend/src/app/dashboard/monthly-override/page.tsx), each on the list of rows.
pub mod TimeInput
use pwa_attendance_record_sy.Prelude.{
  ℕ, Bool, true, false, List, [], ◌∷◌, ◌++◌, map, Option, none, some, leb, if◌then◌else◌, length,
  take, drop, filter,
}
use pwa_attendance_record_sy.Text.{Text, text_eq, slice, or_null}
use pwa_attendance_record_sy.Text.Decimal.{is_digit}
use pwa_attendance_record_sy.Text.Numbers.{Num, number_of}
use pwa_attendance_record_sy.Override.{DayRow}

-- `normalizeTimeInput` from the digits on
unfoldable pub with_colon : Text → Text
with_colon digits =
    if leb (length digits) 2 then digits else slice 0 2 digits ++ (b':' ∷ drop 2 digits)

-- `normalizeTimeInput`
unfoldable pub normalize_time_input : Text → Text
normalize_time_input raw = with_colon (slice 0 4 (filter is_digit raw))

-- The update that every handler makes: the rows of the date are changed, the others kept.
abbrev pub change_row : Text → (DayRow → DayRow) → List DayRow → List DayRow
change_row date f rows = map (λ row. if text_eq row.date date then f row else row) rows

unfoldable pub handle_clock_in_change : Text → Text → List DayRow → List DayRow
handle_clock_in_change date value =
    change_row date (λ row. record row { clock_in = normalize_time_input value })

unfoldable pub handle_clock_out_change : Text → Text → List DayRow → List DayRow
handle_clock_out_change date value =
    change_row date (λ row. record row { clock_out = normalize_time_input value })

unfoldable pub handle_leave_type_change : Text → Option Text → List DayRow → List DayRow
handle_leave_type_change date value = change_row date (λ row. record row { leave_type = value })

unfoldable pub handle_remark_change : Text → Text → List DayRow → List DayRow
handle_remark_change date value = change_row date (λ row. record row { remark = or_null value })

abbrev pub hours_of : Text → Option Num
hours_of [] = none
hours_of (c ∷ s) = some (number_of (c ∷ s))

unfoldable pub handle_overtime_change : Text → Text → List DayRow → List DayRow
handle_overtime_change date value =
    change_row date (λ row. record row { overtime_hours = hours_of value })

unfoldable pub handle_late_reason_change : Text → Text → List DayRow → List DayRow
handle_late_reason_change date value =
    change_row date (λ row. record row { late_leave_reason = or_null value })

-- An input of a row, with the value that it reports.
pub data Edit : Type 0 where
  clock_in clock_out remark overtime late_reason : Text → Edit
  leave_type : Option Text → Edit

unfoldable pub apply_edit : Text → Edit → List DayRow → List DayRow
unfolding handle_clock_in_change handle_clock_out_change handle_leave_type_change
    handle_remark_change handle_overtime_change handle_late_reason_change
apply_edit date (clock_in v) = handle_clock_in_change date v
apply_edit date (clock_out v) = handle_clock_out_change date v
apply_edit date (remark v) = handle_remark_change date v
apply_edit date (overtime v) = handle_overtime_change date v
apply_edit date (late_reason v) = handle_late_reason_change date v
apply_edit date (leave_type v) = handle_leave_type_change date v
