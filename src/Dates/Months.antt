-- ===== src/Dates/Months.antt =====
-- `getDaysInMonth` and the month navigation of the monthly override page
-- (frontend/src/app/dashboard/monthly-override/page.tsx).
use pwa_attendance_record_sy.Prelude.{
  ℕ, zero, suc, ◌+◌, ◌-◌, ◌≤◌, ◌<◌, ◌≡◌, Bool, arith, ◌==◌, if◌then◌else◌, ◌∙◌, sym,
}
use pwa_attendance_record_sy.Dates.{is_leap, days_before_index, first_of_index, day_number}

-- `new Date(year, month, 0).getDate()`: the day before the first of the month of index `month`,
-- counted within its own month, which is the one of index `month - 1`.
unfoldable pub get_days_in_month : ℕ → ℕ → ℕ
get_days_in_month y m = first_of_index y m - 1 - first_of_index y (m - 1) + 1

-- `goToPreviousMonth` on (year, month)
unfoldable pub previous_month : ℕ × ℕ → ℕ × ℕ
previous_month (y, m) = if m == 1 then (y - 1, 12) else (y, m - 1)

-- `goToNextMonth` on (year, month)
unfoldable pub next_month : ℕ × ℕ → ℕ × ℕ
next_month (y, m) = if m == 12 then (y + 1, 1) else (y, m + 1)

pub record IsMonth (ym : ℕ × ℕ) : Type 0 where
  pub positive : 1 ≤ ym.1
  pub at_most_12 : ym.1 ≤ 12

-- Both moves keep the month between 1 and 12, and undo one another; the year is positive where the
-- page goes back from January.
pub navigation_inverse :
    (y m : ℕ)
    → 1 ≤ y
    → IsMonth (y, m)
    → IsMonth (next_month (y, m))
      × IsMonth (previous_month (y, m))
      × (previous_month (next_month (y, m)) ≡ (y, m))
      × (next_month (previous_month (y, m)) ≡ (y, m))
unfolding previous_month next_month
navigation_inverse y m p h = ground arith

year_end : (y : ℕ) → first_of_index y 12 ≡ first_of_index (y + 1) 0
unfolding first_of_index
year_end y = ground arith

days_bounds :
    (leap : Bool) (k : ℕ)
    → k < 12
    → (days_before_index leap k + 28 ≤ days_before_index leap (suc k))
      × (days_before_index leap (suc k) ≤ days_before_index leap k + 31)
unfolding days_before_index
days_bounds leap zero h = ground arith
days_bounds leap (suc zero) h = ground arith
days_bounds leap (suc (suc k)) h = ground arith

first_of_index-step :
    (y k : ℕ)
    → k < 12
    → (first_of_index y k + 28 ≤ first_of_index y (suc k))
      × (first_of_index y (suc k) ≤ first_of_index y k + 31)
unfolding first_of_index
first_of_index-step y k h = omega (arith, days_bounds (is_leap y) k h)

-- The first of the next month, by the index that `new Date(year, month, …)` takes.
next_first :
    (y m : ℕ)
    → m ≤ 12
    → day_number (next_month (y, m)).0 (next_month (y, m)).1 1 ≡ first_of_index y m
unfolding day_number next_month
next_first y m h = ground (arith, year_end y)

days_of_index :
    (y k : ℕ) → k < 12 → get_days_in_month y (suc k) + first_of_index y k ≡ first_of_index y (suc k)
unfolding get_days_in_month
days_of_index y k h = ground (arith, first_of_index-step y k h)

last_day :
    (y k : ℕ)
    → k < 12
    → day_number y (suc k) (get_days_in_month y (suc k)) + 1 ≡ first_of_index y (suc k)
unfolding day_number
last_day y k h = ground (arith, days_of_index y k h, first_of_index-step y k h)

-- A month that the navigation can show has 28 to 31 days, and the day after its last one is the
-- first day of the month that the forward button goes to.
pub get_days_in_month-next_month :
    (y m : ℕ)
    → IsMonth (y, m)
    → (28 ≤ get_days_in_month y m)
      × (get_days_in_month y m ≤ 31)
      × (day_number y m (get_days_in_month y m) + 1
          ≡ day_number (next_month (y, m)).0 (next_month (y, m)).1 1)
get_days_in_month-next_month y zero h = absurd (omega (arith, h.positive))
get_days_in_month-next_month y (suc k) h =
    let below : k < 12 = omega (arith, h.at_most_12) in
    let step = first_of_index-step y k below in
    let days = days_of_index y k below in
    (omega arith, omega arith, last_day y k below ∙ sym (next_first y (suc k) h.at_most_12))
