-- ===== src/Override/Gate.antt =====
-- The late-leave rule of the monthly override page against the gate of the service
-- (backend/app/services/monthly_submission_service.py).
pub mod Moments
pub mod Clocks
use pwa_attendance_record_sy.Prelude.{
  ℕ, ◌+◌, ◌*◌, ◌/◌, ◌%◌, ◌<◌, ◌≡◌, ◌↔◌, refl, sym, ◌∙◌, ap, subst, Bool, true, false, not, ◌&&◌,
  List, [], ◌∷◌, Option, none, some, arith, ltb, if◌then◌else◌, take, drop, is_some, length,
  Bool-cases, inl, inr, Bool_ext,
}
use pwa_attendance_record_sy.Text.{
  Text, text_eq, text_eq?, text_lt, slice, trim, trim_start, trim_end, is_space, truthy, truthy?,
}
use pwa_attendance_record_sy.Text.Laws.{text_eq_iff}
use pwa_attendance_record_sy.Text.Decimal.{
  hh_mm, hh_mm_lem, text_lt-hh_mm, number_from, digit_lem, number_two, number_four,
}
use pwa_attendance_record_sy.Dates.{parse_clock}
use pwa_attendance_record_sy.Dates.Strings.{IsDay, date_string_lem}
use pwa_attendance_record_sy.DayKinds.{DayKind, Zone}
use pwa_attendance_record_sy.DayKinds.Agreement.{IsEast, derive_day_kind-classify}
use pwa_attendance_record_sy.Backend.Calendar.{DayInfo, classify_day_kind, workday_entry}
use pwa_attendance_record_sy.Backend.Gate.{
  Moment, moment_eq, iso, Summary, summary_entry, ShiftEnd, shift_text, punches_need_reason,
  misses_reason, leaves_in_time, required_kind, leave_exempts,
}
use pwa_attendance_record_sy.Override.{
  extract_time, is_single_punch, build_row, row_needs_late_leave_reason, late_without_reason,
  is_workday_kind, exempt_leave, is_editable_kind, shown_clock_out,
}
use pwa_attendance_record_sy.Override.Gate.Moments.{
  IsMoment, IsShift, extract_time-iso, text_eq-iso,
}
use pwa_attendance_record_sy.Override.Gate.Clocks.{
  trim-hh_mm, slice-shift_text, late_without_reason-hh_mm,
}

-- The punches that a moment may be missing from.
abbrev pub IsMoment? : Option Moment → Type 0
IsMoment? none = Unit
IsMoment? (some t) = IsMoment t

abbrev clock_out_of : Summary → Text
clock_out_of s = shown_clock_out (some (summary_entry s))

clock_out_missing :
    (s : Summary) (f : Moment)
    → s.first_clock_in ≡ some f
    → s.last_clock_out ≡ none
    → clock_out_of s ≡ []
unfolding is_single_punch summary_entry text_eq? extract_time
clock_out_missing s f p q = rw (p, q)

-- A clock-out is shown in hours and minutes, unless it repeats the clock-in.
clock_out_shown :
    (s : Summary) (f l : Moment)
    → s.first_clock_in ≡ some f
    → s.last_clock_out ≡ some l
    → IsMoment f
    → IsMoment l
    → clock_out_of s ≡ (if moment_eq f l then [] else hh_mm l.hours l.minutes)
unfolding is_single_punch summary_entry text_eq?
clock_out_shown s f l p q v w = rw (p, q, text_eq-iso f l v w, extract_time-iso l w)

late_of_blank :
    (shift_end : Text) (reason : Option Text)
    → late_without_reason (trim []) shift_end reason ≡ false
unfolding late_without_reason trim trim_start trim_end
late_of_blank shift_end reason = refl

punches_agree :
    (s : Summary) (first last : Option Moment) (e : ShiftEnd)
    → s.first_clock_in ≡ first
    → s.last_clock_out ≡ last
    → IsMoment? first
    → IsMoment? last
    → IsShift e
    → punches_need_reason first last e s.late_leave_reason ≡ (
        is_some first
        && late_without_reason
            (trim (clock_out_of s))
            (hh_mm e.hours e.minutes)
            s.late_leave_reason)
unfolding punches_need_reason
punches_agree s none last e p q v w k = refl
punches_agree s (some f) none e p q v w k =
    subst
      (λ out. false ≡ late_without_reason (trim out) (hh_mm e.hours e.minutes) s.late_leave_reason)
      (sym (clock_out_missing s f p q))
      (sym (late_of_blank (hh_mm e.hours e.minutes) s.late_leave_reason))
punches_agree s (some f) (some l) e p q v w k =
    subst
      (λ out.
        (if moment_eq f l
          then false
          else if leaves_in_time l e
          then false
          else not (truthy? s.late_leave_reason))
        ≡ late_without_reason (trim out) (hh_mm e.hours e.minutes) s.late_leave_reason)
      (sym (clock_out_shown s f l p q v w))
      (elim (Bool-cases (moment_eq f l)) [
        | inl same ↦ rw same (sym (late_of_blank (hh_mm e.hours e.minutes) s.late_leave_reason))
        | inr other ↦ rw (
          other,
          trim-hh_mm l.hours l.minutes w.hours_below w.minutes_below,
          late_without_reason-hh_mm l e s.late_leave_reason w k,
        )
      ])

same_fields :
    (s : Summary)
    → ((summary_entry s).leave_type ≡ s.leave_type)
      × ((summary_entry s).late_leave_reason ≡ s.late_leave_reason)
unfolding summary_entry
same_fields s = (refl, refl)

truthy-hh_mm : (h m : ℕ) → h < 24 → m < 60 → truthy (hh_mm h m) ≡ true
truthy-hh_mm h m p q = rw (hh_mm_lem h m p q)

required_agrees : (k : DayKind) → is_workday_kind k ≡ required_kind k
unfolding is_workday_kind
required_agrees k = ground arith

exempt_agrees :
    (leave : Option Text) (required : List Text)
    → exempt_leave leave required ≡ leave_exempts leave required
unfolding exempt_leave
exempt_agrees none required = refl
exempt_agrees (some s) required = refl

workday-editable :
    (is_hr_plus : Bool) (k : DayKind)
    → required_kind k ≡ true
    → is_editable_kind is_hr_plus k ≡ true
unfolding is_editable_kind
workday-editable is_hr_plus k h = ground arith

-- The service's gate refuses the submission for a day and its summary exactly if the summary has a
-- clock-in and the row that the page builds of both needs a late-leave reason: in a browser that is
-- not behind UTC, for timestamps of four-digit years and a shift end as the employee list writes it,
-- cut to "HH:MM".
pub row_needs_late_leave_reason-misses_reason :
    (z : Zone) (is_hr_plus : Bool) (d : DayInfo) (s : Summary) (e : ShiftEnd) (required : List Text)
    → IsEast z
    → IsDay d.year d.month d.day
    → IsMoment? s.first_clock_in
    → IsMoment? s.last_clock_out
    → IsShift e
    → misses_reason (classify_day_kind d) required e s ≡ (
        is_some s.first_clock_in
        && row_needs_late_leave_reason
            (build_row z is_hr_plus (workday_entry d) (some (summary_entry s)))
            (some (slice 0 5 (shift_text e)))
            required)
unfolding misses_reason row_needs_late_leave_reason build_row
row_needs_late_leave_reason-misses_reason z is_hr_plus d s e required east day v w k =
    let kinds = (derive_day_kind-classify z d east day).0 in
    let punches = punches_agree s s.first_clock_in s.last_clock_out e refl refl v w k in
    let kind = classify_day_kind d in
    rw (kinds, slice-shift_text e k)
      (ground (
        arith,
        punches,
        same_fields s,
        truthy-hh_mm e.hours e.minutes k.hours_below k.minutes_below,
        required_agrees kind,
        exempt_agrees s.leave_type required,
        workday-editable is_hr_plus kind,
      ))
