-- ===== src/DayKinds/Agreement.antt =====
-- The client's day kinds (frontend/src/lib/day-kind.ts) against those of the service
-- (backend/app/utils/taiwan_calendar.py).
use pwa_attendance_record_sy.Prelude.{ℕ, ◌<◌, ◌≡◌, refl, none, some, arith, ap}
use pwa_attendance_record_sy.Text.{Text}
use pwa_attendance_record_sy.Dates.{LocalTime, get_day, weekday, day_number, date_string}
use pwa_attendance_record_sy.Dates.Strings.{IsDay, parse-date_string}
use pwa_attendance_record_sy.DayKinds.{
  WorkdayInfo, Zone, local_day, get_day_of, derive_day_kind_from_date, derive_day_kind,
  derive_day_kind_from_workday,
}
use pwa_attendance_record_sy.Backend.Calendar.{
  DayInfo, py_weekday, classify_day_kind, weekday_fallback, default_day, workday_entry,
}

-- UTC, or less than a day ahead of it, as Taiwan is.
pub record IsEast (z : Zone) : Type 0 where
  pub not_behind : z.behind ≡ 0
  pub under_a_day : z.ahead < 1440

local_day_east : (z : Zone) (n : ℕ) → IsEast z → local_day z n ≡ n
unfolding local_day
local_day_east z n e = omega (arith, e.not_behind, e.under_a_day)

get_day_of-date_string :
    (z : Zone) (y m d : ℕ)
    → IsEast z
    → IsDay y m d
    → get_day_of z (date_string y m d) ≡ some (weekday (day_number y m d))
get_day_of-date_string z y m d e v =
    unfold get_day_of in
    rw (parse-date_string y m d v)
      (ap (λ n. some (weekday n)) (local_day_east z (day_number y m d) e))

abbrev IsDated : DayInfo → Type 0
IsDated d = IsDay d.year d.month d.day

abbrev pub without_kind : WorkdayInfo → WorkdayInfo
without_kind w = record w { day_kind = none }

fallback_agrees :
    (z : Zone) (d : DayInfo)
    → IsEast z
    → IsDated d
    → derive_day_kind z (workday_entry d) ≡ classify_day_kind d
unfolding derive_day_kind classify_day_kind workday_entry weekday py_weekday
fallback_agrees z d e v = rw (get_day_of-date_string z d.year d.month d.day e v) (ground arith)

-- In a browser that is not behind UTC (by less than a day ahead), the kind that the client derives
-- of a calendar entry is the one that the service's classification gives, whether the entry
-- carries the kind or the client has to derive it from the date and the flags; years have four
-- digits.
pub derive_day_kind-classify :
    (z : Zone) (d : DayInfo)
    → IsEast z
    → IsDated d
    → (derive_day_kind_from_workday z (workday_entry d) ≡ classify_day_kind d)
      × (derive_day_kind_from_workday z (without_kind (workday_entry d)) ≡ classify_day_kind d)
unfolding derive_day_kind_from_workday derive_day_kind workday_entry
derive_day_kind-classify z d e v = (refl, fallback_agrees z d e v)

-- The client's guess from the weekday alone is the service's fallback for a day that the calendar
-- data lacks, and also the kind that the service gives the entry which it fills in for that day.
pub derive_day_kind_from_date-fallback :
    (t : LocalTime) (weekday_zh : Text)
    → (derive_day_kind_from_date t ≡ weekday_fallback t.year t.month t.date)
      × (classify_day_kind (default_day weekday_zh t.year t.month t.date)
          ≡ derive_day_kind_from_date t)
unfolding derive_day_kind_from_date get_day weekday_fallback classify_day_kind default_day weekday
    py_weekday
derive_day_kind_from_date-fallback t w = ground arith
