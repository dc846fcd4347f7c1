-- ===== src/Attendance/Week.antt =====
-- The week that frontend/src/app/attendance/page.tsx opens with.
use pwa_attendance_record_sy.Prelude.{ℕ, ◌≡◌, ◌+◌, ◌-◌, ◌≤◌, ◌==◌, arith, if◌then◌else◌}
use pwa_attendance_record_sy.Dates.{LocalTime, day_number, weekday}
use pwa_attendance_record_sy.Attendance.{monday, sunday}

week_lem :
    (n : ℕ)
    → 6 ≤ n
    → let day = weekday n in
      let first = n - (if day == 0 then 6 else day - 1) in
      let last = n + (if day == 0 then 0 else 7 - day) in
      (weekday first ≡ 1) × (weekday last ≡ 0) × (last ≡ first + 6) × (first ≤ n) × (n ≤ last)
unfolding weekday
week_lem n h = ground arith

-- The page opens with the week of today: its first day is a Monday, its last day the Sunday six
-- days later, and today is one of them.
pub sunday-monday :
    (now : LocalTime)
    → 6 ≤ day_number now.year now.month now.date
    → let today = day_number now.year now.month now.date in
      (weekday (monday now) ≡ 1)
      × (weekday (sunday now) ≡ 0)
      × (sunday now ≡ monday now + 6)
      × (monday now ≤ today)
      × (today ≤ sunday now)
unfolding monday sunday
sunday-monday now h = week_lem (day_number now.year now.month now.date) h
