-- ===== src/Tests/Clocking.antt =====
-- Live punches at concrete times (backend/app/services/attendance_service.py).
use mathlib.Core.List.{Permᴰ}
use pwa_attendance_record_sy.Prelude.{
  ◌≡◌, refl, true, false, [], none, some, ℕ, List, ◌∷◌, filter, arith,
}
use pwa_attendance_record_sy.Text.{Text, codes}
use pwa_attendance_record_sy.Types.{office, late, PunchResponse}
use pwa_attendance_record_sy.DayKinds.{workday}
use pwa_attendance_record_sy.Backend.Gate.{Summary, ShiftEnd, misses_reason}
use pwa_attendance_record_sy.Backend.Status.{Clock, calculate_status}
use pwa_attendance_record_sy.Backend.Day.{Day, generate_daily_summary, find_first_clock_in}
use pwa_attendance_record_sy.Backend.Punch.{
  GeoResult, with_log, summarised, service_punch, submit_reason, accepted, store_punch,
}
use pwa_attendance_record_sy.Backend.Punch.Prompt.{
  service_punch-submit_reason, service_punch-misses_reason,
}
use pwa_attendance_record_sy.Backend.History.{
  AttendanceLog, max_date, done, overflow_error, get_history,
}
use pwa_attendance_record_sy.Backend.History.Order.{IsOrdered}
use pwa_attendance_record_sy.Backend.History.Range.{
  is_between, get_history-IsOrdered, get_history-overflow_error,
}
use pwa_attendance_record_sy.Tests.Saving.{rules, first_of_july}

-- A day without punches, and times of it
abbrev quiet_day : Day
quiet_day = record first_of_july { logs = [] }

abbrev ten_past : Clock
ten_past = record { hours = 9; minutes = 10; micros = 0 }

abbrev half_past_six : Clock
half_past_six = record { hours = 18; minutes = 30; micros = 4_000_000 }

abbrev geo : GeoResult
geo = record { work_mode = office; distance_km = codes "0.1"; is_low_accuracy = false }

abbrev late_answer : PunchResponse
late_answer = record {
  work_mode = office;
  distance_km = codes "0.1";
  is_low_accuracy = false;
  tardiness_status = some late;
  summary_id = some 7;
}

abbrev late_day : Day
late_day = (summarised rules (some late) none (with_log ten_past quiet_day)).0

service_punch-submit_reason_example : submit_reason late_day.summary true false ≡ accepted
unfolding service_punch store_punch generate_daily_summary
    pwa_attendance_record_sy.Backend.Day.generate_with calculate_status find_first_clock_in
    pwa_attendance_record_sy.Backend.Day.find_last_clock_out
    pwa_attendance_record_sy.Punch.asks_reason pwa_attendance_record_sy.Override.is_tardy
service_punch-submit_reason_example =
    service_punch-submit_reason rules 7 (some geo) ten_past ten_past none quiet_day late_day
      late_answer false refl refl

abbrev reason : Text
reason = codes "PERSONAL"

abbrev stayed_day : Day
stayed_day = (summarised rules none (some reason) (with_log half_past_six late_day)).0

abbrev at_1730 : ShiftEnd
at_1730 = record { hours = 17; minutes = 30; seconds = 0 }

service_punch-misses_reason_example :
    (s : Summary) × (stayed_day.summary ≡ some s)
    × (s.late_leave_reason ≡ some reason)
    × (misses_reason workday [] at_1730 s ≡ false)
unfolding service_punch summarised generate_daily_summary
    pwa_attendance_record_sy.Backend.Day.generate_with calculate_status find_first_clock_in
    pwa_attendance_record_sy.Backend.Day.find_last_clock_out store_punch
service_punch-misses_reason_example =
    service_punch-misses_reason rules 7 (some geo) half_past_six half_past_six reason late_day
      stayed_day
      (record {
        work_mode = office;
        distance_km = codes "0.1";
        is_low_accuracy = false;
        tardiness_status = none;
        summary_id = none;
      })
      workday [] at_1730 refl refl

-- Three logs of two employees around the end of June 2026
abbrev log_of : Text → ℕ → ℕ → AttendanceLog
log_of emp_id date time = record { emp_id = emp_id; date = date; time = time }

abbrev ann : Text
ann = codes "EMP01"

abbrev punches : List AttendanceLog
punches =
    log_of ann 739_798 900
    ∷ log_of (codes "EMP02") 739_797 500
    ∷ log_of ann 739_797 1_800
    ∷ log_of ann 739_797 600
    ∷ []

get_history-IsOrdered_example :
    (logs : List AttendanceLog) × (get_history punches ann 739_797 739_798 ≡ done logs)
    × Permᴰ logs (filter (is_between ann 739_797 739_798) punches)
    × IsOrdered logs
get_history-IsOrdered_example = get_history-IsOrdered punches ann 739_797 739_798 (omega arith)

get_history-overflow_error_example : get_history punches ann 3_652_058 max_date ≡ overflow_error
get_history-overflow_error_example = get_history-overflow_error punches ann 3_652_058 (omega arith)
