-- ===== src/Backend/History.antt =====
-- The history of an employee's punches: get_history of backend/app/services/attendance_service.py over
-- find_by_employee_and_date of backend/app/repositories/attendance_repository.py. A date is its
-- ordinal, and a time of day is in microseconds.
pub mod Order
pub mod Range
use pwa_attendance_record_sy.Prelude.{
  ℕ, zero, suc, ◌-◌, Bool, true, false, ◌&&◌, List, [], ◌∷◌, ◌++◌, filter, Option, none, some, ltb,
  leb, ◌==◌, if◌then◌else◌,
}
use pwa_attendance_record_sy.Text.{Text, text_eq}

-- A log of the table
pub record AttendanceLog : Type 0 where
  pub emp_id : Text
  pub date : ℕ
  pub time : ℕ

-- `date.max.toordinal()`
abbrev pub max_date : ℕ
max_date = 3_652_059

-- `ORDER BY timestamp` of logs of one date
unfoldable pub insert_log : AttendanceLog → List AttendanceLog → List AttendanceLog
insert_log l [] = l ∷ []
insert_log l (k ∷ ks) =
    let rest = insert_log l ks in if ltb k.time l.time then k ∷ rest else l ∷ k ∷ ks

unfoldable pub sort_logs : List AttendanceLog → List AttendanceLog
unfolding insert_log
sort_logs [] = []
sort_logs (l ∷ ls) = insert_log l (sort_logs ls)

abbrev pub is_of : Text → ℕ → AttendanceLog → Bool
is_of emp_id date l = text_eq l.emp_id emp_id && l.date == date

-- `find_by_employee_and_date`; `none` is the OverflowError of the day after the last date.
unfoldable pub find_by_employee_and_date :
    List AttendanceLog → Text → ℕ → Option (List AttendanceLog)
unfolding sort_logs
find_by_employee_and_date table emp_id date =
    if ltb date max_date then some (sort_logs (filter (is_of emp_id date) table)) else none

pub data History : Type 0 where
  done : List AttendanceLog → History
  overflow_error out_of_fuel : History

-- `logs.extend(day_logs)`, of the logs of the dates before
abbrev pub extend : List AttendanceLog → History → History
extend day_logs (done logs) = done (day_logs ++ logs)
extend day_logs overflow_error = overflow_error
extend day_logs out_of_fuel = out_of_fuel

-- The loop, on fuel
unfoldable pub history_from : ℕ → List AttendanceLog → Text → ℕ → ℕ → History
unfolding find_by_employee_and_date
history_from zero table emp_id current end_date = out_of_fuel
history_from (suc fuel) table emp_id current end_date =
    let rest = history_from fuel table emp_id (suc current) end_date in
    if leb current end_date
    then (elim (find_by_employee_and_date table emp_id current) [
      | none ↦ overflow_error
      | some day_logs ↦ extend day_logs rest
    ])
    else done []

-- `get_history`: the fuel is one more than the number of the dates.
unfoldable pub get_history : List AttendanceLog → Text → ℕ → ℕ → History
unfolding history_from
get_history table emp_id start_date end_date =
    history_from (suc (suc end_date - start_date)) table emp_id start_date end_date
