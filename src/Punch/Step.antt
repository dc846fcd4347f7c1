-- ===== src/Punch/Step.antt =====
-- The events of the punch page, guarded as its controls are (frontend/src/app/punch/page.tsx).
use pwa_attendance_record_sy.Prelude.{
  ℕ, Bool, true, false, List, Option, none, some, if◌then◌else◌, is_some, holds,
}
use pwa_attendance_record_sy.Text.{Text, slice}
use pwa_attendance_record_sy.Punch.View.{ReasonForm, PunchView, punch_view, shown_form}
use pwa_attendance_record_sy.DayKinds.{DayKind}
use pwa_attendance_record_sy.Types.{MyProfile, PunchResponse, LateLeaveReason}
use pwa_attendance_record_sy.Punch.{
  Coords, PunchPage, Request, handle_reason_confirm, handle_punch_click, position_effect,
  punch_stored, punch_failed, reasons_done, handle_reason_submit,
}

pub data Event : Type 0 where
  -- the user's: a click on the punch button, at a time of day
  click : ℕ → ℕ → Event
  choose_reason : LateLeaveReason → Event
  confirm_reason : Event
  type_reason : Text → Event
  send_reason : Event
  -- what the browser and the requests bring back, and the effect on the coordinates
  located : Coords → Event
  not_located : Text → Event
  coords_changed : Event
  stored : PunchResponse → Event
  refused : Text → Event
  reasons : Option (List ℕ) → Event
  reason_stored : Event
  reason_refused : Text → Event
  kind_done : DayKind → Event
  profile_done : MyProfile → Event

-- The punch button is shown and enabled.
unfoldable pub is_enabled : PunchPage → Bool
is_enabled p = holds (λ (v : PunchView). v.is_enabled) (punch_view p)

-- The form for a reason is shown with its button enabled.
unfoldable pub is_sendable : PunchPage → Bool
is_sendable p = holds (λ (f : ReasonForm). f.is_sendable) (shown_form p)

module _ (not_supported : Text) where
  unfoldable pub step : PunchPage → Event → PunchPage × Option Request
  unfolding is_enabled handle_reason_confirm handle_punch_click position_effect punch_stored
      punch_failed reasons_done handle_reason_submit
  step p (click h m) = if is_enabled p then handle_punch_click not_supported h m p else (p, none)
  step p (choose_reason r) = (record p { late_reason = r }, none)
  step p confirm_reason =
      if p.reason_modal_open then handle_reason_confirm not_supported p else (p, none)
  step p (type_reason t) =
      if is_some (shown_form p) then (record p { reason_text = slice 0 500 t }, none) else (p, none)
  step p send_reason = if is_sendable p then handle_reason_submit p else (p, none)
  step p (located c) =
      (record p { position = record { coords = some c; error = none; loading = false } }, none)
  step p (not_located t) =
      (record p { position = record { coords = none; error = some t; loading = false } }, none)
  step p coords_changed = position_effect p
  step p (stored r) = punch_stored r p
  step p (refused t) = (punch_failed t p, none)
  step p (reasons known) = (reasons_done known p, none)
  step p reason_stored = (record p { reason_submitted = true; reason_submitting = false }, none)
  step p (reason_refused t) = (record p { reason_error = some t; reason_submitting = false }, none)
  step p (kind_done k) = (record p { today_kind = k }, none)
  step p (profile_done m) = (record p { profile = some m }, none)
