-- ===== src/Override/Saved/Clocks.antt =====
-- The times of a row: what the service reads of them, and what the page shows of a stored day
-- (frontend/src/app/dashboard/monthly-override/page.tsx, backend/app/schemas/bulk_override.py).
use pwa_attendance_record_sy.Prelude.{
  ℕ, ◌+◌, ◌*◌, ◌<◌, ◌≡◌, refl, ap, ◌∙◌, Bool, true, false, ◌&&◌, [], Option, none, some, arith, ltb,
  ◌==◌, if◌then◌else◌, field_of, is_some, ◌||◌, Bool-cases, inl, inr,
}
use pwa_attendance_record_sy.Text.{Text, truthy, or_null, text_eq, text_eq?}
use pwa_attendance_record_sy.Text.Laws.{or_null-truthy}
use pwa_attendance_record_sy.Text.Decimal.{hh_mm, hh_mm_lem}
use pwa_attendance_record_sy.Dates.Strings.{IsDay}
use pwa_attendance_record_sy.Types.{AttendanceStatus}
use pwa_attendance_record_sy.Backend.Gate.{moment_eq, summary_entry}
use pwa_attendance_record_sy.Backend.Status.{Clock, value}
use pwa_attendance_record_sy.Backend.Day.{
  Day, Entry, moment_of, find_first_clock_in, find_last_clock_out, upsert_generated,
}
use pwa_attendance_record_sy.Backend.Day.Punches.{first_of, last_of}
use pwa_attendance_record_sy.Backend.Day.Sync.{Fields, full_entry}
use pwa_attendance_record_sy.Backend.Request.{json_num, parse_time?, entry_from, read_entry}
use pwa_attendance_record_sy.Override.{DayRow, extract_time, is_single_punch, shown_clock_out}
use pwa_attendance_record_sy.Override.Save.{entry_of}
use pwa_attendance_record_sy.Override.Gate.Moments.{IsMoment, extract_time-iso, text_eq-iso}
use pwa_attendance_record_sy.Override.Saved.{Time, IsTime, clock_at, input_of, Reads}

abbrev pub IsTime? : Option Time → Type 0
IsTime? none = Unit
IsTime? (some t) = IsTime t

-- The fields of the row that the entry carries
abbrev pub row_fields : DayRow → Fields
row_fields row = record {
  leave_type = row.leave_type;
  remark = row.remark;
  overtime_hours = json_num row.overtime_hours;
  late_leave_reason = row.late_leave_reason;
}

truthy-hh_mm : (t : Time) → IsTime t → truthy (hh_mm t.hours t.minutes) ≡ true
truthy-hh_mm t v = rw (hh_mm_lem t.hours t.minutes v.hours_below v.minutes_below)

module _ (parse_time : Text → Option Clock) (reads : Reads parse_time) where
  parse_time?-input_of :
      (t : Option Time)
      → IsTime? t
      → parse_time? parse_time (or_null (input_of t)) ≡ some (field_of clock_at t)
  unfolding parse_time?
  parse_time?-input_of none v = refl
  parse_time?-input_of (some t) v =
      rw (or_null-truthy (hh_mm t.hours t.minutes) (truthy-hh_mm t v)) (rw (reads t v))

  entry_from-input_of :
      (row : DayRow) (first last : Option Time)
      → IsTime? first
      → IsTime? last
      → row.clock_in ≡ input_of first
      → row.clock_out ≡ input_of last
      → entry_from parse_time
          (parse_time? parse_time (or_null row.clock_in))
          (parse_time? parse_time (or_null row.clock_out))
          (entry_of row)
        ≡ some (full_entry (field_of clock_at first) (field_of clock_at last) (row_fields row))
  unfolding entry_from entry_of
  entry_from-input_of row first last v w p q =
      rw (p, q) (rw (parse_time?-input_of first v, parse_time?-input_of last w))

  -- What the service reads of a row that it takes
  pub read_entry-entry_of :
      (row : DayRow) (first last : Option Time) (e : Entry)
      → IsTime? first
      → IsTime? last
      → row.clock_in ≡ input_of first
      → row.clock_out ≡ input_of last
      → read_entry parse_time (entry_of row) ≡ some e
      → e ≡ full_entry (field_of clock_at first) (field_of clock_at last) (row_fields row)
  unfolding read_entry entry_of
  read_entry-entry_of row first last e v w p q h =
      ground (arith, entry_from-input_of row first last v w p q)

-- The moments of a day
moment_of-IsMoment :
    (d : Day) (t : Time)
    → IsDay d.year d.month d.day
    → IsTime t
    → IsMoment (moment_of d (clock_at t))
unfolding moment_of
moment_of-IsMoment d t day v = record {
  day = day;
  hours_below = v.hours_below;
  minutes_below = v.minutes_below;
}

abbrev pub same_time : Time → Time → Bool
same_time a b = a.hours == b.hours && a.minutes == b.minutes

moment_eq-clock_at :
    (d : Day) (a b : Time)
    → moment_eq (moment_of d (clock_at a)) (moment_of d (clock_at b)) ≡ same_time a b
unfolding moment_eq moment_of text_eq
moment_eq-clock_at d a b = ground arith

moment_clock :
    (d : Day) (t : Time)
    → hh_mm (moment_of d (clock_at t)).hours (moment_of d (clock_at t)).minutes
      ≡ hh_mm t.hours t.minutes
unfolding moment_of
moment_clock d t = refl

-- What the page shows of a day whose first and last punch are at two times
pub shown_of_times :
    (d : Day) (st : AttendanceStatus) (a b : Time)
    → IsDay d.year d.month d.day
    → IsTime a
    → IsTime b
    → find_first_clock_in d.logs ≡ some (clock_at a)
    → find_last_clock_out d.logs ≡ some (clock_at b)
    → let s = summary_entry (upsert_generated d st) in
      (extract_time s.first_clock_in ≡ hh_mm a.hours a.minutes)
      × (shown_clock_out (some s) ≡ (if same_time a b then [] else hh_mm b.hours b.minutes))
unfolding summary_entry upsert_generated is_single_punch text_eq?
shown_of_times d st a b day v w first last =
    let f = moment_of-IsMoment d a day v in
    let l = moment_of-IsMoment d b day w in
    let m = moment_of d (clock_at a) in
    let n = moment_of d (clock_at b) in
    rw (first, last)
      (
        extract_time-iso m f ∙ moment_clock d a,
        rw (text_eq-iso m n f l, moment_eq-clock_at d a b, extract_time-iso n l, moment_clock d b),
      )

abbrev minutes_of : Time → ℕ
minutes_of t = t.hours * 60 + t.minutes

-- The times that the page shows for two that were entered: a clock-out without a clock-in as the
-- clock-in, two in the other order exchanged, and of two equal ones the clock-in alone.
abbrev pub shown_times : Option Time → Option Time → Option Time × Option Time
shown_times none out = (out, none)
shown_times (some a) none = (some a, none)
shown_times (some a) (some b) =
    if ltb (minutes_of a) (minutes_of b)
    then (some a, some b)
    else if ltb (minutes_of b) (minutes_of a)
    then (some b, some a)
    else (some a, none)

ltb-value :
    (a b : Time) → ltb (value (clock_at a)) (value (clock_at b)) ≡ ltb (minutes_of a) (minutes_of b)
unfolding value
ltb-value a b = ground arith

clock_at-if :
    (c : Bool) (a b : Time) → (if c then clock_at a else clock_at b) ≡ clock_at (if c then a else b)
clock_at-if true a b = refl
clock_at-if false a b = refl

first_of_times :
    (a b : Time)
    → first_of (some (clock_at a)) (some (clock_at b))
      ≡ some (clock_at (if ltb (minutes_of b) (minutes_of a) then b else a))
first_of_times a b =
    rw (ltb-value b a) (ap some (clock_at-if (ltb (minutes_of b) (minutes_of a)) b a))

last_of_times :
    (a b : Time)
    → last_of (some (clock_at a)) (some (clock_at b))
      ≡ some (clock_at (if ltb (minutes_of a) (minutes_of b) then b else a))
last_of_times a b =
    rw (ltb-value a b) (ap some (clock_at-if (ltb (minutes_of a) (minutes_of b)) b a))

same_time_refl : (t : Time) → same_time t t ≡ true
same_time_refl t = ground arith

-- `shown_of_times` where the two times are given by a test
unfoldable pub IsShown : Day → AttendanceStatus → Option Time × Option Time → Type 0
IsShown d st times =
    let s = summary_entry (upsert_generated d st) in
    (extract_time s.first_clock_in ≡ input_of times.0)
    × (shown_clock_out (some s) ≡ input_of times.1)

one_time :
    (d : Day) (st : AttendanceStatus) (a : Time)
    → IsDay d.year d.month d.day
    → IsTime a
    → find_first_clock_in d.logs ≡ some (clock_at a)
    → find_last_clock_out d.logs ≡ some (clock_at a)
    → IsShown d st (some a, none)
unfolding IsShown
one_time d st a day v first last =
    let (p, q) = shown_of_times d st a a day v v first last in (p, q ∙ rw (same_time_refl a))

two_times :
    (d : Day) (st : AttendanceStatus) (a b : Time)
    → IsDay d.year d.month d.day
    → IsTime a
    → IsTime b
    → minutes_of a < minutes_of b
    → find_first_clock_in d.logs ≡ some (clock_at a)
    → find_last_clock_out d.logs ≡ some (clock_at b)
    → IsShown d st (some a, some b)
unfolding IsShown
two_times d st a b day v w lt first last =
    let (p, q) = shown_of_times d st a b day v w first last in
    let other : same_time a b ≡ false = ground arith in (p, q ∙ rw other)

same_of_minutes :
    (a b : Time)
    → IsTime a
    → IsTime b
    → ltb (minutes_of a) (minutes_of b) ≡ false
    → ltb (minutes_of b) (minutes_of a) ≡ false
    → a ≡ b
same_of_minutes a b v w p q = ground arith

both_times :
    (d : Day) (st : AttendanceStatus) (a b : Time)
    → IsDay d.year d.month d.day
    → IsTime a
    → IsTime b
    → find_first_clock_in d.logs ≡ first_of (some (clock_at a)) (some (clock_at b))
    → find_last_clock_out d.logs ≡ last_of (some (clock_at a)) (some (clock_at b))
    → IsShown d st (shown_times (some a) (some b))
both_times d st a b day v w first last =
    let first' = first ∙ first_of_times a b in
    let last' = last ∙ last_of_times a b in
    elim (Bool-cases (ltb (minutes_of a) (minutes_of b))) [
      | inl lt ↦
          let back : ltb (minutes_of b) (minutes_of a) ≡ false = ground arith in
          rw lt (two_times d st a b day v w (ground arith) (rw back at first') (rw lt at last'))
      | inr ge ↦ elim (Bool-cases (ltb (minutes_of b) (minutes_of a))) [
        | inl gt ↦
            rw (ge, gt)
              (two_times d st b a day w v (ground arith) (rw gt at first') (rw ge at last'))
        | inr eq ↦ rw (ge, eq) (one_time d st a day v (rw eq at first') (rw ge at last'))
      ]
    ]

-- What the page shows of a day that holds the punches of one entry
pub IsShown-entry :
    (d : Day) (st : AttendanceStatus) (first last : Option Time)
    → IsDay d.year d.month d.day
    → IsTime? first
    → IsTime? last
    → (is_some first || is_some last) ≡ true
    → find_first_clock_in d.logs ≡ first_of (field_of clock_at first) (field_of clock_at last)
    → find_last_clock_out d.logs ≡ last_of (field_of clock_at first) (field_of clock_at last)
    → IsShown d st (shown_times first last)
IsShown-entry d st none none day v w h p q = cc
IsShown-entry d st none (some b) day v w h p q = one_time d st b day w p q
IsShown-entry d st (some a) none day v w h p q = one_time d st a day v p q
IsShown-entry d st (some a) (some b) day v w h p q = both_times d st a b day v w p q
