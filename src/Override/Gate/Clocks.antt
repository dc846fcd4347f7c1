-- ===== src/Override/Gate/Clocks.antt =====
-- The times "HH:MM" that `rowNeedsLateLeaveReason` compares
-- (frontend/src/app/dashboard/monthly-override/page.tsx) and the times of the service.
use pwa_attendance_record_sy.Prelude.{
  ℕ, ◌+◌, ◌*◌, ◌/◌, ◌%◌, ◌<◌, ◌≡◌, refl, false, not, [], ◌∷◌, Option, arith, ltb, if◌then◌else◌,
  length,
}
use pwa_attendance_record_sy.Text.{
  Text, text_lt, slice, trim, trim_start, trim_end, is_space, truthy?,
}
use pwa_attendance_record_sy.Text.Decimal.{hh_mm, hh_mm_lem, text_lt-hh_mm}
use pwa_attendance_record_sy.Backend.Gate.{Moment, ShiftEnd, shift_text, leaves_in_time}
use pwa_attendance_record_sy.Override.{late_without_reason}
use pwa_attendance_record_sy.Override.Gate.Moments.{IsMoment, IsShift}

digit_not_space : (n : ℕ) → n < 10 → is_space (b'0' + n) ≡ false
unfolding is_space
digit_not_space n h = ground arith

colon_not_space : is_space b':' ≡ false
unfolding is_space
colon_not_space = refl

pub trim-hh_mm : (h m : ℕ) → h < 24 → m < 60 → trim (hh_mm h m) ≡ hh_mm h m
trim-hh_mm h m p q = rw (hh_mm_lem h m p q) (
    unfold trim trim_start trim_end in
    ground (
      arith,
      digit_not_space (h / 10) (omega arith),
      digit_not_space (h % 10) (omega arith),
      digit_not_space (m / 10) (omega arith),
      digit_not_space (m % 10) (omega arith),
      colon_not_space,
    ))

pub slice-shift_text :
    (e : ShiftEnd) → IsShift e → slice 0 5 (shift_text e) ≡ hh_mm e.hours e.minutes
slice-shift_text e v =
    unfold shift_text in rw (hh_mm_lem e.hours e.minutes v.hours_below v.minutes_below)

length-hh_mm : (h m : ℕ) → h < 24 → m < 60 → length (hh_mm h m) ≡ 5
length-hh_mm h m p q = rw (hh_mm_lem h m p q)

late_of_full :
    (out shift_end : Text) (reason : Option Text)
    → length out ≡ 5
    → late_without_reason out shift_end reason
      ≡ (if not (text_lt shift_end out) then false else not (truthy? reason))
unfolding late_without_reason
late_of_full [] shift_end reason h = absurd (omega arith)
late_of_full (c ∷ out) shift_end reason h = ground arith

minutes_and_seconds :
    (l : Moment) (e : ShiftEnd) (reason : Option Text)
    → e.seconds < 60
    → (if not (ltb (e.hours * 60 + e.minutes) (l.hours * 60 + l.minutes))
        then false
        else not (truthy? reason))
      ≡ (if leaves_in_time l e then false else not (truthy? reason))
minutes_and_seconds l e reason h = ground arith

-- The client's comparison of texts, on a clock-out in full, is the service's of times.
pub late_without_reason-hh_mm :
    (l : Moment) (e : ShiftEnd) (reason : Option Text)
    → IsMoment l
    → IsShift e
    → late_without_reason (hh_mm l.hours l.minutes) (hh_mm e.hours e.minutes) reason
      ≡ (if leaves_in_time l e then false else not (truthy? reason))
late_without_reason-hh_mm l e reason v w =
    rw
      (
        late_of_full (hh_mm l.hours l.minutes) (hh_mm e.hours e.minutes) reason
            (length-hh_mm l.hours l.minutes v.hours_below v.minutes_below),
        text_lt-hh_mm e.hours e.minutes l.hours l.minutes w.hours_below w.minutes_below
            v.hours_below v.minutes_below,
      )
      (minutes_and_seconds l e reason w.seconds_below)
