-- ===== src/Punch.antt =====
-- frontend/src/app/punch/page.tsx and frontend/src/hooks/useGeolocation.ts: the punch page. What
-- an awaited request brings back is an event; what a handler sends is a request.
pub mod ReasonDialog
pub mod View
pub mod Step
pub mod Safety
pub mod Reasons
use pwa_attendance_record_sy.Prelude.{
  ℕ, Bool, true, false, not, ◌&&◌, ◌||◌, List, [], ◌∷◌, Option, none, some, if◌then◌else◌, any,
  or_else, is_some, maybe_field, field_of, ◌==◌, ltb,
}
use pwa_attendance_record_sy.Text.{Text, text_lt, truthy, truthy?, trim}
use pwa_attendance_record_sy.Text.Decimal.{hh_mm}
use pwa_attendance_record_sy.DayKinds.{
  DayKind, workday, makeup_workday, national_holiday, rest_day, regular_leave,
}
use pwa_attendance_record_sy.Types.{
  MyProfile, PunchResponse, LateLeaveReason, personal, AttendanceStatus,
}
use pwa_attendance_record_sy.Override.{is_tardy, has_status, is_workday_kind}

-- Coordinates are carried, never computed with: the numerals that the request holds.
pub record Coords : Type 0 where
  pub latitude : Text
  pub longitude : Text
  pub accuracy : Text

-- `GeolocationState`: the three coordinates are set together or are null together.
pub record Position : Type 0 where
  pub coords : Option Coords
  pub error : Option Text
  pub loading : Bool

-- The state variables and refs of the page.
pub record PunchPage : Type 0 where
  pub supported : Bool
  pub authenticated : Bool
  pub profile : Option MyProfile
  pub position : Position
  pub today_kind : DayKind
  pub punch_result : Option PunchResponse
  pub error : Option Text
  pub is_submitting : Bool
  pub reason_text : Text
  pub reason_submitted : Bool
  pub reason_submitting : Bool
  pub reason_error : Option Text
  pub reason_modal_open : Bool
  pub late_reason : LateLeaveReason
  pub late_reason_ref : Option LateLeaveReason
  pub pending_punch : Bool
  pub submit_lock : Bool

pub data Request : Type 0 where
  punch : Coords → Option LateLeaveReason → Request
  locate my_reasons : Request
  give_reason : ℕ → Text → Request

-- `isWeekendLocked`
unfoldable pub is_weekend_locked : PunchPage → Bool
is_weekend_locked p = elim p.today_kind [ regular_leave ↦ true | rest_day ↦ true | _ ↦ false ]

-- `needsLateReason()` at the time of day h:m
unfoldable pub needs_late_reason : PunchPage → ℕ → ℕ → Bool
needs_late_reason p h m =
    let shift_end = maybe_field (λ (q : MyProfile). q.shift_end_time) p.profile in
    is_workday_kind p.today_kind && truthy? shift_end && text_lt (or_else shift_end []) (hh_mm h m)

-- `requestPosition`, with the text of the error for a browser without geolocation
unfoldable pub request_position : Text → PunchPage → PunchPage × Option Request
request_position not_supported p =
    if p.supported
    then (
      record p { position = record { coords = p.position.coords; error = none; loading = true } },
      some locate,
    )
    else (
      record p { position = record { coords = none; error = some not_supported; loading = false } },
      none,
    )

-- `submitPunch` is called: the page is locked until the submission has ended.
unfoldable pub start_submit : Coords → PunchPage → PunchPage × Option Request
start_submit c p =
    (record p { submit_lock = true; is_submitting = true }, some (punch c p.late_reason_ref))

-- The `finally` of a submission
unfoldable pub end_submit : PunchPage → PunchPage
end_submit p = record p { is_submitting = false; submit_lock = false; late_reason_ref = none }

unfoldable pub cleared : PunchPage → PunchPage
cleared p = record p {
  error = none;
  punch_result = none;
  reason_text = [];
  reason_submitted = false;
  reason_error = none;
}

-- `handlePunch`
unfoldable pub handle_punch : Text → PunchPage → PunchPage × Option Request
unfolding request_position start_submit cleared
handle_punch not_supported p = if p.submit_lock then (p, none) else elim p.position.coords [
  | some c ↦ start_submit c (cleared p)
  | none ↦ request_position not_supported (record (cleared p) { pending_punch = true })
]

-- `handleReasonConfirm`
unfoldable pub handle_reason_confirm : Text → PunchPage → PunchPage × Option Request
handle_reason_confirm not_supported p =
    handle_punch not_supported
      (record p { late_reason_ref = some p.late_reason; reason_modal_open = false })

-- `handlePunchClick` at the time of day h:m
unfoldable pub handle_punch_click : Text → ℕ → ℕ → PunchPage → PunchPage × Option Request
handle_punch_click not_supported h m p =
    if needs_late_reason p h m && not (is_some p.late_reason_ref)
    then (record p { late_reason = personal; reason_modal_open = true }, none)
    else handle_punch not_supported p

-- The effect on the coordinates
unfoldable pub position_effect : PunchPage → PunchPage × Option Request
unfolding start_submit
position_effect p =
    if not p.pending_punch || p.submit_lock then (p, none) else elim p.position.coords [
      | none ↦ (p, none)
      | some c ↦ start_submit c (record p { pending_punch = false })
    ]

-- `result.summary_id`, where 0 counts as absent
abbrev pub summary_of : PunchResponse → Option ℕ
summary_of r = elim r.summary_id [ none ↦ none | some n ↦ if n == 0 then none else some n ]

-- The answer asks for a reason: tardy, with a summary.
unfoldable pub asks_reason : PunchResponse → Bool
asks_reason r = is_some (summary_of r) && has_status is_tardy r.tardiness_status

-- `submitPunch` has answered.
unfoldable pub punch_stored : PunchResponse → PunchPage → PunchPage × Option Request
unfolding end_submit asks_reason
punch_stored r p =
    let q = record p { punch_result = some r } in
    if asks_reason r then (q, some my_reasons) else (end_submit q, none)

unfoldable pub punch_failed : Text → PunchPage → PunchPage
unfolding end_submit
punch_failed text p = end_submit (record p { error = some text })

-- The summaries that the employee has given reasons for; `none` if the request failed.
unfoldable pub reasons_known : ℕ → Option (List ℕ) → Bool
reasons_known id none = false
reasons_known id (some ids) = any (λ n. n == id) ids

unfoldable pub reasons_done : Option (List ℕ) → PunchPage → PunchPage
unfolding end_submit reasons_known
reasons_done known p =
    let given : Bool = elim (maybe_field summary_of p.punch_result) [
      | none ↦ false
      | some n ↦ reasons_known n known
    ] in
    end_submit (record p { reason_submitted = given || p.reason_submitted })

-- `handleReasonSubmit`
unfoldable pub handle_reason_submit : PunchPage → PunchPage × Option Request
handle_reason_submit p = elim (maybe_field summary_of p.punch_result) [
  | none ↦ (p, none)
  | some id ↦
      if truthy (trim p.reason_text)
      then (
        record p { reason_submitting = true; reason_error = none },
        some (give_reason id (trim p.reason_text)),
      )
      else (p, none)
]
