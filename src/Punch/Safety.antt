-- ===== src/Punch/Safety.antt =====
-- What the punch page guarantees about the punches that it sends (frontend/src/app/punch/page.tsx).
use pwa_attendance_record_sy.Prelude.{
  ℕ, ◌+◌, ◌*◌, ◌≤◌, ◌<◌, ◌≡◌, true, false, List, [], ◌∷◌, Option, some, arith, if◌then◌else◌,
  is_some, lt→ltb, maybe_field,
}
use pwa_attendance_record_sy.Text.{Text, truthy}
use pwa_attendance_record_sy.Text.Decimal.{hh_mm, hh_mm_lem, text_lt-hh_mm}
use pwa_attendance_record_sy.Types.{MyProfile, LateLeaveReason}
use pwa_attendance_record_sy.Override.{is_workday_kind}
use pwa_attendance_record_sy.Punch.{
  Coords, PunchPage, Request, punch, asks_reason, needs_late_reason, handle_punch,
}
use pwa_attendance_record_sy.Punch.Step.{
  Event, click, confirm_reason, stored, refused, reasons, step,
}

-- A punch request counts 1.
abbrev pub punches : Option Request → ℕ
punches (some (punch c r)) = 1
punches _ = 0

-- An event that ends a submission counts 1: an answer that asks for no reason, an error, or the
-- list of reasons.
abbrev pub ends : Event → ℕ
ends (stored r) = if asks_reason r then 0 else 1
ends (refused t) = 1
ends (reasons known) = 1
ends _ = 0

abbrev held : PunchPage → ℕ
held p = if p.submit_lock then 1 else 0

pub all_ends : List Event → ℕ
all_ends [] = 0
all_ends (e ∷ es) = ends e + all_ends es

truthy-hh_mm : (h m : ℕ) → h < 24 → m < 60 → truthy (hh_mm h m) ≡ true
truthy-hh_mm h m p q = rw (hh_mm_lem h m p q)

needs_of_late :
    (p : PunchPage) (h m eh em : ℕ)
    → h < 24
    → m < 60
    → eh < 24
    → em < 60
    → is_workday_kind p.today_kind ≡ true
    → maybe_field (λ (q : MyProfile). q.shift_end_time) p.profile ≡ some (hh_mm eh em)
    → eh * 60 + em < h * 60 + m
    → needs_late_reason p h m ≡ true
unfolding needs_late_reason
needs_of_late p h m eh em a b c d k s late =
    rw (k, s, truthy-hh_mm eh em c d, text_lt-hh_mm eh em h m c d a b) (lt→ltb _ _ late)

module _ (not_supported : Text) where
  handle_punch-held :
      (p : PunchPage)
      → punches (handle_punch not_supported p).1 + held p ≤ held (handle_punch not_supported p).0
  unfolding handle_punch
  handle_punch-held p = ground arith

  step-held :
      (p : PunchPage) (e : Event)
      → punches (step not_supported p e).1 + held p ≤ held (step not_supported p e).0 + ends e
  unfolding step
  step-held p (click h m) = ground (arith, handle_punch-held p)
  step-held p confirm_reason = ground (
    arith,
    handle_punch-held
        (record p { late_reason_ref = some p.late_reason; reason_modal_open = false }),
  )
  step-held p _ = ground arith

  -- The punch requests of a run, and its page.
  pub punches_sent : PunchPage → List Event → ℕ
  punches_sent p [] = 0
  punches_sent p (e ∷ es) =
      punches (step not_supported p e).1 + punches_sent (step not_supported p e).0 es

  punches_sent-held :
      (p : PunchPage) (es : List Event) → punches_sent p es + held p ≤ 1 + all_ends es
  unfolding punches_sent all_ends
  punches_sent-held p [] = ground arith
  punches_sent-held p (e ∷ es) =
      omega (arith, step-held p e, punches_sent-held (step not_supported p e).0 es)

  -- From an unlocked page, and whatever the user, the browser and the network do, at most one
  -- punch request is sent beyond the answers that have ended a submission.
  pub punches_sent-le :
      (p : PunchPage) (es : List Event)
      → p.submit_lock ≡ false
      → punches_sent p es ≤ 1 + all_ends es
  punches_sent-le p es h = omega (arith, punches_sent-held p es)

  handle_punch-reason :
      (p : PunchPage) (c : Coords) (r : Option LateLeaveReason)
      → (handle_punch not_supported p).1 ≡ some (punch c r)
      → r ≡ p.late_reason_ref
  unfolding handle_punch
  handle_punch-reason p c r h = ground arith

  -- On a workday, a click on the punch button at a time past the end of the shift, to the minute,
  -- sends a punch only with a reason for the late leave.
  pub late_click-reason :
      (p : PunchPage) (h m eh em : ℕ) (c : Coords) (r : Option LateLeaveReason)
      → h < 24
      → m < 60
      → eh < 24
      → em < 60
      → is_workday_kind p.today_kind ≡ true
      → maybe_field (λ (q : MyProfile). q.shift_end_time) p.profile ≡ some (hh_mm eh em)
      → eh * 60 + em < h * 60 + m
      → (step not_supported p (click h m)).1 ≡ some (punch c r)
      → is_some r ≡ true
  unfolding step
  late_click-reason p h m eh em c r a b c' d k s late sent =
      ground (arith, needs_of_late p h m eh em a b c' d k s late, handle_punch-reason p c r)

  -- What the reason dialog sends is the reason chosen there.
  pub confirm_reason-punch :
      (p : PunchPage) (c : Coords) (r : Option LateLeaveReason)
      → (step not_supported p confirm_reason).1 ≡ some (punch c r)
      → r ≡ some p.late_reason
  unfolding step
  confirm_reason-punch p c r sent = ground (
    arith,
    handle_punch-reason
        (record p { late_reason_ref = some p.late_reason; reason_modal_open = false }) c r,
  )
