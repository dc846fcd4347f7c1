-- ===== src/Override/Dialogs/Laws.antt =====
-- What a user brings about at the dialogs of the monthly override page
-- (frontend/src/components/WarningModal.tsx, OvertimePunchModal.tsx, LateReasonMissingModal.tsx).
use pwa_attendance_record_sy.Prelude.{
  ℕ, zero, suc, ◌≡◌, refl, ap, ◌∙◌, Bool, true, false, List, [], ◌∷◌, ◌++◌, map, none, some, arith,
  any, all,
}
use pwa_attendance_record_sy.Text.{Text, codes, text_eq, truthy}
use pwa_attendance_record_sy.Text.Laws.{or_null-truthy}
use pwa_attendance_record_sy.Override.Page.{Page, submit, target_emp_id, is_hr_plus, perform_submit}
use pwa_attendance_record_sy.Override.Page.Step.{
  Event, warning_back, close_overtime_modal, close_late_reason_modal, step,
}
use pwa_attendance_record_sy.Override.Dialogs.{
  around, panel, back_button, proceed_button, close_button, Gesture, press, at_warning, at_overtime,
  at_late_reason, events_of, perform, gesture, warning_key, overtime_key, late_reason_key,
  on_warning, on_overtime, on_late_reason, gestures,
}

-- The gesture is a click on Proceed.
abbrev pub proceeds : Gesture → Bool
proceeds (at_warning proceed_button) = true
proceeds _ = false

-- The event closes a dialog.
abbrev closes : Event → Bool
closes warning_back = true
closes close_overtime_modal = true
closes close_late_reason_modal = true
closes _ = false

-- The page `p` with the dialogs of `q`
abbrev pub with_dialogs : Page → Page → Page
with_dialogs p q = record p {
  warning_open = q.warning_open;
  overtime_modal_open = q.overtime_modal_open;
  late_reason_modal_open = q.late_reason_modal_open;
  backend_late_reason_dates = q.backend_late_reason_dates;
}

-- From `p` to `q` only dialogs have changed, and none has opened.
pub record IsDismissed (p q : Page) : Type 0 where
  pub same : q ≡ with_dialogs p q
  pub warning : q.warning_open ≡ true → p.warning_open ≡ true
  pub overtime : q.overtime_modal_open ≡ true → p.overtime_modal_open ≡ true
  pub late_reason : q.late_reason_modal_open ≡ true → p.late_reason_modal_open ≡ true

IsDismissed-refl : (p : Page) → IsDismissed p p
IsDismissed-refl p = record {
  same = refl;
  warning = λ h. h;
  overtime = λ h. h;
  late_reason = λ h. h;
}

IsDismissed-trans : (p q r : Page) → IsDismissed p q → IsDismissed q r → IsDismissed p r
IsDismissed-trans p q r h k = record {
  same = k.same ∙ ap (λ z. with_dialogs z r) h.same;
  warning = λ e. h.warning (k.warning e);
  overtime = λ e. h.overtime (k.overtime e);
  late_reason = λ e. h.late_reason (k.late_reason e);
}

step-IsDismissed :
    (p : Page) (e : Event) → closes e ≡ true → IsDismissed p (step p e).0 × ((step p e).1 ≡ none)
unfolding step
step-IsDismissed p warning_back h =
    (record { same = refl; warning = λ e. cc; overtime = λ e. e; late_reason = λ e. e }, refl)
step-IsDismissed p close_overtime_modal h =
    (record { same = refl; warning = λ e. e; overtime = λ e. cc; late_reason = λ e. e }, refl)
step-IsDismissed p close_late_reason_modal h =
    (record { same = refl; warning = λ e. e; overtime = λ e. e; late_reason = λ e. cc }, refl)
step-IsDismissed p _ h = cc

perform-IsDismissed :
    (p : Page) (es : List Event)
    → all closes es ≡ true
    → IsDismissed p (perform p es).0 × ((perform p es).1 ≡ [])
unfolding perform
perform-IsDismissed p [] h = (IsDismissed-refl p, refl)
perform-IsDismissed p (e ∷ es) h =
    let (one, quiet) = step-IsDismissed p e (ground arith) in
    let (rest, silent) = perform-IsDismissed (step p e).0 es (ground arith) in
    (
      IsDismissed-trans p (step p e).0 (perform (step p e).0 es).0 one rest,
      ground (arith, quiet, silent),
    )

events_of-closes : (p : Page) (g : Gesture) → proceeds g ≡ false → all closes (events_of p g) ≡ true
unfolding events_of
events_of-closes p (press key) h = ground arith
events_of-closes p (at_warning around) h = ground arith
events_of-closes p (at_warning panel) h = ground arith
events_of-closes p (at_warning back_button) h = ground arith
events_of-closes p (at_warning proceed_button) h = cc
events_of-closes p (at_overtime around) h = ground arith
events_of-closes p (at_overtime panel) h = ground arith
events_of-closes p (at_overtime close_button) h = ground arith
events_of-closes p (at_late_reason around) h = ground arith
events_of-closes p (at_late_reason panel) h = ground arith
events_of-closes p (at_late_reason close_button) h = ground arith

gesture-IsDismissed :
    (p : Page) (g : Gesture)
    → proceeds g ≡ false
    → IsDismissed p (gesture p g).0 × ((gesture p g).1 ≡ [])
unfolding gesture
gesture-IsDismissed p g h = perform-IsDismissed p (events_of p g) (events_of-closes p g h)

dismiss_all :
    (p : Page) (gs : List Gesture)
    → any proceeds gs ≡ false
    → IsDismissed p (gestures p gs).0 × ((gestures p gs).1 ≡ [])
unfolding gestures
dismiss_all p [] h = (IsDismissed-refl p, refl)
dismiss_all p (g ∷ gs) h =
    let (one, quiet) = gesture-IsDismissed p g (ground arith) in
    let (rest, silent) = dismiss_all (gesture p g).0 gs (ground arith) in
    (
      IsDismissed-trans p (gesture p g).0 (gestures (gesture p g).0 gs).0 one rest,
      ground (arith, quiet, silent),
    )

-- A list with the same element `n` times
abbrev pub copies {ℓ} : {A : Type ℓ} → ℕ → A → List A
copies zero a = []
copies (suc n) a = a ∷ copies n a

perform_submit-pending :
    (p : Page) (id : Text)
    → target_emp_id p ≡ some id
    → truthy id ≡ true
    → perform_submit p
      ≡ (record p { pending_submit = true; message = none }, some (submit id p.year p.month))
unfolding perform_submit
perform_submit-pending p id e n = ground (arith, or_null-truthy id n)

proceed_again :
    (p : Page) (id : Text)
    → p.warning_open ≡ true
    → target_emp_id p ≡ some id
    → truthy id ≡ true
    → gesture p (at_warning proceed_button)
      ≡ (record p { pending_submit = true; message = none }, submit id p.year p.month ∷ [])
unfolding gesture perform events_of step
proceed_again p id o e n = ground (arith, perform_submit-pending p id e n)

-- Proceed is not disabled during a submission: from an open warning, with an employee to act for,
-- `n` clicks on it before an answer send the month `n` times.
pub gestures-proceed :
    (n : ℕ) (p : Page) (id : Text)
    → p.warning_open ≡ true
    → target_emp_id p ≡ some id
    → truthy id ≡ true
    → (gestures p (copies n (at_warning proceed_button))).1 ≡ copies n (submit id p.year p.month)
unfolding gestures target_emp_id is_hr_plus
gestures-proceed zero p id o e n = refl
gestures-proceed (suc k) p id o e n =
    let again = proceed_again p id o e n in
    let rest = gestures-proceed k (record p { pending_submit = true; message = none }) id o e n in
    rw again (ap (λ rs. submit id p.year p.month ∷ rs) rest)

-- No dialog is open.
abbrev pub IsClear : Page → Type 0
IsClear q =
    (q.warning_open ≡ false) × (q.overtime_modal_open ≡ false) × (q.late_reason_modal_open ≡ false)

-- The events of Escape, by the dialogs that are open
abbrev escape_events : Bool → Bool → Bool → List Event
unfolding warning_key overtime_key late_reason_key on_warning on_overtime on_late_reason text_eq
escape_events w o l =
    map on_warning (warning_key w (codes "Escape"))
    ++ (map on_overtime (overtime_key o (codes "Escape"))
        ++ map on_late_reason (late_reason_key l (codes "Escape")))

escape_events-IsClear :
    (p : Page) (w o l : Bool)
    → p.warning_open ≡ w
    → p.overtime_modal_open ≡ o
    → p.late_reason_modal_open ≡ l
    → IsClear (perform p (escape_events w o l)).0
unfolding perform step escape_events
escape_events-IsClear p true true true a b c = (refl, refl, refl)
escape_events-IsClear p true true false a b c = (refl, refl, c)
escape_events-IsClear p true false true a b c = (refl, b, refl)
escape_events-IsClear p true false false a b c = (refl, b, c)
escape_events-IsClear p false true true a b c = (a, refl, refl)
escape_events-IsClear p false true false a b c = (a, refl, c)
escape_events-IsClear p false false true a b c = (a, b, refl)
escape_events-IsClear p false false false a b c = (a, b, c)

-- Escape leaves no dialog open.
gesture-IsClear : (p : Page) → IsClear (gesture p (press (codes "Escape"))).0
unfolding gesture events_of escape_events
gesture-IsClear p =
    escape_events-IsClear p p.warning_open p.overtime_modal_open p.late_reason_modal_open refl refl
      refl

-- Whatever the user does at the dialogs without a click on Proceed sends nothing, opens no
-- dialog and changes nothing of the page but which dialogs are open and the dates that the
-- service has listed; Escape then leaves no dialog open.
pub gestures-IsDismissed :
    (p : Page) (gs : List Gesture)
    → any proceeds gs ≡ false
    → let q = (gestures p gs).0 in
      IsDismissed p q × ((gestures p gs).1 ≡ []) × IsClear (gesture q (press (codes "Escape"))).0
gestures-IsDismissed p gs h =
    let (dismissed, silent) = dismiss_all p gs h in
    (dismissed, silent, gesture-IsClear (gestures p gs).0)
