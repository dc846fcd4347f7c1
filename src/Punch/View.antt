-- ===== src/Punch/View.antt =====
-- What the punch page shows (frontend/src/app/punch/page.tsx). The employee's ID, the clock, colours
-- and fixed texts are left out.
use pwa_attendance_record_sy.Prelude.{
  Bool, true, false, not, ◌&&◌, ◌||◌, Option, none, some, if◌then◌else◌, maybe_field, or_else, [],
}
use pwa_attendance_record_sy.Text.{Text, codes, truthy, truthy?, trim}
use pwa_attendance_record_sy.DayKinds.{DayKind, regular_leave}
use pwa_attendance_record_sy.Types.{
  WorkMode, office, AttendanceStatus, late, early_leave, late_and_early_leave, PunchResponse,
  MyProfile, LateLeaveReason,
}
use pwa_attendance_record_sy.Override.{has_status}
use pwa_attendance_record_sy.Punch.{PunchPage, is_weekend_locked, asks_reason}

pub data Colour : Type 0 where
  blue purple : Colour

pub record ReasonForm : Type 0 where
  pub value : Text
  pub problem : Option Text
  pub is_sending : Bool
  pub is_sendable : Bool

-- The card with the answer of a punch
pub record Card : Type 0 where
  pub work_mode : WorkMode
  pub colour : Colour
  pub distance_km : Text
  pub has_accuracy_note : Bool
  pub has_late_alert : Bool
  pub has_early_leave_alert : Bool
  pub reason_form : Option ReasonForm
  pub has_reason_note : Bool

pub record PunchView : Type 0 where
  pub is_enabled : Bool
  pub is_processing : Bool
  pub weekend_notice : Option Text
  pub position_error : Option Text
  pub error : Option Text
  pub card : Option Card
  pub reason_modal : Option (Text × LateLeaveReason)

-- `isLoading`
unfoldable pub is_loading : PunchPage → Bool
is_loading p = p.position.loading || p.is_submitting

-- An error is shown if it has a text.
unfoldable pub shown_error : Option Text → Option Text
shown_error e = if truthy? e then e else none

abbrev pub is_late : AttendanceStatus → Bool
is_late s = elim s [ late ↦ true | late_and_early_leave ↦ true | _ ↦ false ]

abbrev pub leaves_early : AttendanceStatus → Bool
leaves_early s = elim s [ early_leave ↦ true | late_and_early_leave ↦ true | _ ↦ false ]

abbrev pub colour_of : WorkMode → Colour
colour_of m = elim m [ office ↦ blue | _ ↦ purple ]

-- The key of the notice
unfoldable pub weekend_notice : DayKind → Text
weekend_notice regular_leave = codes "punch.regularLeaveNotice"
weekend_notice _ = codes "punch.restDayNotice"

unfoldable pub reason_form : PunchPage → PunchResponse → Option ReasonForm
unfolding shown_error
reason_form p r =
    if asks_reason r && not p.reason_submitted
    then some (record {
      value = p.reason_text;
      problem = shown_error p.reason_error;
      is_sending = p.reason_submitting;
      is_sendable = not (p.reason_submitting || not (truthy (trim p.reason_text)));
    })
    else none

unfoldable pub result_card : PunchPage → PunchResponse → Card
unfolding reason_form
result_card p r = record {
  work_mode = r.work_mode;
  colour = colour_of r.work_mode;
  distance_km = r.distance_km;
  has_accuracy_note = r.is_low_accuracy;
  has_late_alert = has_status is_late r.tardiness_status;
  has_early_leave_alert = has_status leaves_early r.tardiness_status;
  reason_form = reason_form p r;
  has_reason_note = p.reason_submitted;
}

-- The page; it shows nothing to a visitor.
unfoldable pub punch_view : PunchPage → Option PunchView
unfolding is_loading result_card
punch_view p =
    if not p.authenticated
    then none
    else some (record {
      is_enabled = not (is_loading p || is_weekend_locked p);
      is_processing = is_loading p;
      weekend_notice = if is_weekend_locked p then some (weekend_notice p.today_kind) else none;
      position_error = shown_error p.position.error;
      error = shown_error p.error;
      card = elim p.punch_result [ none ↦ none | some r ↦ some (result_card p r) ];
      reason_modal =
          if p.reason_modal_open
          then some (
            or_else (maybe_field (λ (q : MyProfile). q.shift_end_time) p.profile) [],
            p.late_reason,
          )
          else none;
    })

-- The form for the reason, if it is shown
unfoldable pub shown_form : PunchPage → Option ReasonForm
shown_form p =
    maybe_field (λ (c : Card). c.reason_form)
      (maybe_field (λ (v : PunchView). v.card) (punch_view p))
