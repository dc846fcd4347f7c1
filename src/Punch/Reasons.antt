-- ===== src/Punch/Reasons.antt =====
-- What the punch page guarantees about the reasons that it sends (frontend/src/app/punch/page.tsx).
use pwa_attendance_record_sy.Prelude.{
  ℕ, ◌+◌, ◌≤◌, ◌≡◌, refl, true, false, not, ◌||◌, List, [], ◌∷◌, Option, none, some, arith,
  if◌then◌else◌, holds,
}
use pwa_attendance_record_sy.Text.{Text}
use pwa_attendance_record_sy.Types.{PunchResponse}
use pwa_attendance_record_sy.Punch.{PunchPage, Request, give_reason, asks_reason, handle_punch}
use pwa_attendance_record_sy.Punch.View.{
  ReasonForm, reason_form, result_card, punch_view, shown_form,
}
use pwa_attendance_record_sy.Punch.Step.{
  Event, click, confirm_reason, send_reason, stored, reason_refused, is_sendable, step,
}

-- A request that gives a reason counts 1.
abbrev pub gives : Option Request → ℕ
gives (some (give_reason n t)) = 1
gives _ = 0

-- An event that lets the employee give a reason counts 1: an answer that asks for one, and the refusal
-- of one.
abbrev pub asks : Event → ℕ
asks (stored r) = if asks_reason r then 1 else 0
asks (reason_refused t) = 1
asks _ = 0

pub all_asks : List Event → ℕ
all_asks [] = 0
all_asks (e ∷ es) = asks e + all_asks es

-- The page may send a reason.
abbrev armed : PunchPage → ℕ
armed p =
    if p.reason_submitting || p.reason_submitted || not (holds asks_reason p.punch_result)
    then 0
    else 1

form_armed :
    (p : PunchPage) (r : PunchResponse)
    → holds (λ (f : ReasonForm). f.is_sendable) (reason_form p r) ≡ true
    → (asks_reason r ≡ true) × (p.reason_submitting ≡ false) × (p.reason_submitted ≡ false)
unfolding reason_form
form_armed p r h = (ground arith, ground arith, ground arith)

sendable_armed :
    (p : PunchPage) (answer : Option PunchResponse)
    → p.punch_result ≡ answer
    → is_sendable p ≡ true
    → 1 ≤ armed p
unfolding is_sendable shown_form punch_view result_card
sendable_armed p none e h = absurd (ground arith)
sendable_armed p (some r) e h = ground (arith, form_armed p r)

module _ (not_supported : Text) where
  handle_punch-armed :
      (p : PunchPage)
      → gives (handle_punch not_supported p).1 + armed (handle_punch not_supported p).0 ≤ armed p
  unfolding handle_punch
  handle_punch-armed p = ground arith

  step-armed :
      (p : PunchPage) (e : Event)
      → gives (step not_supported p e).1 + armed (step not_supported p e).0 ≤ armed p + asks e
  unfolding step
  step-armed p (click h m) = ground (arith, handle_punch-armed p)
  step-armed p confirm_reason = ground (
    arith,
    handle_punch-armed
        (record p { late_reason_ref = some p.late_reason; reason_modal_open = false }),
  )
  step-armed p send_reason = ground (arith, sendable_armed p p.punch_result refl)
  step-armed p _ = ground arith

  -- The reasons that a run sends
  pub reasons_sent : PunchPage → List Event → ℕ
  reasons_sent p [] = 0
  reasons_sent p (e ∷ es) =
      gives (step not_supported p e).1 + reasons_sent (step not_supported p e).0 es

  reasons_sent-armed : (p : PunchPage) (es : List Event) → reasons_sent p es ≤ armed p + all_asks es
  unfolding reasons_sent all_asks
  reasons_sent-armed p [] = ground arith
  reasons_sent-armed p (e ∷ es) =
      omega (arith, step-armed p e, reasons_sent-armed (step not_supported p e).0 es)

  -- A page without an answer to a punch sends, whatever happens, at most one reason for each answer
  -- that asks for one and for each refusal of a reason.
  pub reasons_sent-le :
      (p : PunchPage) (es : List Event) → p.punch_result ≡ none → reasons_sent p es ≤ all_asks es
  reasons_sent-le p es h = ground (arith, reasons_sent-armed p es)
