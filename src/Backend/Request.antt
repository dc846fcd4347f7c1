-- ===== src/Backend/Request.antt =====
-- backend/app/schemas/bulk_override.py: an entry of the override, as it is read and validated. Texts
-- have no surrogates, so that their code units are their characters.
use pwa_attendance_record_sy.Prelude.{
  ℕ, ◌%◌, Bool, true, ◌&&◌, [], ◌∷◌, Option, none, some, ◌==◌, leb, length, if◌then◌else◌, field_of,
}
use pwa_attendance_record_sy.Text.{Text, codes, includes}
use pwa_attendance_record_sy.Text.Numbers.{Num, tenths, nan}
use pwa_attendance_record_sy.Types.{BulkOverrideEntry}
use pwa_attendance_record_sy.Backend.Status.{Clock}
use pwa_attendance_record_sy.Backend.Day.{Entry}

-- What `JSON.stringify` makes of a number: null for NaN.
unfoldable pub json_num : Option Num → Option Num
json_num (some nan) = none
json_num o = o

abbrev pub at_most : ℕ → Option Text → Bool
at_most n none = true
at_most n (some s) = leb (length s) n

-- `_validate_overtime_step`, of a number in tenths: at least 1.0, in steps of 0.5
unfoldable pub is_overtime_step : Option Num → Bool
is_overtime_step (some (tenths n)) = leb 10 n && (n % 5) == 0
is_overtime_step _ = true

-- `_validate_late_leave_reason`
unfoldable pub is_late_leave_reason : Option Text → Bool
is_late_leave_reason none = true
is_late_leave_reason (some s) = includes s (codes "ASSIGNED_OVERTIME" ∷ codes "PERSONAL" ∷ [])

unfoldable pub is_valid : BulkOverrideEntry → Bool
unfolding is_overtime_step is_late_leave_reason json_num
is_valid e =
    at_most 50 e.leave_type
    && at_most 500 e.remark
    && is_overtime_step (json_num e.overtime_hours)
    && at_most 30 e.late_leave_reason
    && is_late_leave_reason e.late_leave_reason

-- The parse of a time is the schema library's.
module _ (parse_time : Text → Option Clock) where
  unfoldable pub parse_time? : Option Text → Option (Option Clock)
  parse_time? none = some none
  parse_time? (some s) = field_of some (parse_time s)

  unfoldable pub entry_from :
      Option (Option Clock) → Option (Option Clock) → BulkOverrideEntry → Option Entry
  unfolding json_num
  entry_from (some first) (some last) e = some (record {
    first_clock_in = first;
    last_clock_out = last;
    leave_type = some e.leave_type;
    remark = some e.remark;
    overtime_hours = some (json_num e.overtime_hours);
    late_leave_reason = some e.late_leave_reason;
  })
  entry_from _ _ e = none

  -- The client sends every key, so that each of them is set; `none` is an answer 422.
  unfoldable pub read_entry : BulkOverrideEntry → Option Entry
  unfolding parse_time? entry_from is_valid
  read_entry e =
      if is_valid e
      then entry_from (parse_time? e.first_clock_in) (parse_time? e.last_clock_out) e
      else none
