-- ===== src/Tests/Punching.antt =====
-- The punch page at concrete inputs.
use pwa_attendance_record_sy.Prelude.{
  ◌+◌, ◌≤◌, ◌≡◌, refl, true, false, List, [], ◌∷◌, none, some, arith, is_some,
}
use pwa_attendance_record_sy.Text.{codes, text_lt}
use pwa_attendance_record_sy.Text.Decimal.{hh_mm}
use pwa_attendance_record_sy.DayKinds.{workday}
use pwa_attendance_record_sy.Types.{
  employee, office, normal, late, PunchResponse, personal, assigned_overtime,
}
use pwa_attendance_record_sy.Override.{is_workday_kind}
use pwa_attendance_record_sy.Punch.{
  Coords, PunchPage, is_weekend_locked, needs_late_reason, handle_punch,
}
use pwa_attendance_record_sy.Punch.Step.{
  Event, click, stored, type_reason, send_reason, reason_refused, step,
}
use pwa_attendance_record_sy.Punch.Reasons.{reasons_sent, all_asks, reasons_sent-le}
use pwa_attendance_record_sy.Punch.Safety.{
  punches_sent, all_ends, punches_sent-le, late_click-reason,
}

abbrev here : Coords
here = record { latitude = codes "25.03"; longitude = codes "121.56"; accuracy = codes "12" }

abbrev page : PunchPage
page = record {
  supported = true;
  authenticated = true;
  profile =
      some
        (record { emp_id = codes "EMP01"; role = employee; shift_end_time = some (hh_mm 17 30) });
  position = record { coords = some here; error = none; loading = false };
  today_kind = workday;
  punch_result = none;
  error = none;
  is_submitting = false;
  reason_text = [];
  reason_submitted = false;
  reason_submitting = false;
  reason_error = none;
  reason_modal_open = false;
  late_reason = personal;
  late_reason_ref = none;
  pending_punch = false;
  submit_lock = false;
}

abbrev answer : PunchResponse
answer = record {
  work_mode = office;
  distance_km = codes "0.1";
  is_low_accuracy = false;
  tardiness_status = some normal;
  summary_id = none;
}

abbrev events : List Event
events = click 9 0 ∷ click 9 0 ∷ stored answer ∷ click 17 0 ∷ []

punches_sent-le_example : punches_sent [] page events ≤ 1 + all_ends events
punches_sent-le_example = punches_sent-le [] page events refl

-- The reason has been chosen: a click past the end of the shift sends it.
abbrev chosen : PunchPage
chosen = record page { late_reason_ref = some assigned_overtime }

late_click-reason_example : is_some (some assigned_overtime) ≡ true
unfolding step handle_punch needs_late_reason is_weekend_locked is_workday_kind hh_mm text_lt
    pwa_attendance_record_sy.Punch.View.punch_view
late_click-reason_example =
    late_click-reason [] chosen 18 15 17 30 here (some assigned_overtime) (omega arith)
      (omega arith) (omega arith) (omega arith) (unfold is_workday_kind in refl) refl (omega arith)
      refl

abbrev asked : PunchPage
asked = record page { reason_modal_open = true; late_reason = assigned_overtime }

-- A reason is sent, refused and sent again.
abbrev reason_events : List Event
reason_events =
    click 9 0
    ∷ stored (record answer { tardiness_status = some late; summary_id = some 7 })
    ∷ type_reason (codes "bus")
    ∷ send_reason
    ∷ send_reason
    ∷ reason_refused (codes "Conflict")
    ∷ send_reason
    ∷ []

reasons_sent-le_example : reasons_sent [] page reason_events ≤ all_asks reason_events
reasons_sent-le_example = reasons_sent-le [] page reason_events refl
