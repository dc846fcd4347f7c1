-- ===== src/Punch/ReasonDialog.antt =====
-- The dialog that asks for the reason of a late leave (frontend/src/components/LateLeaveReasonModal.tsx).
use pwa_attendance_record_sy.Prelude.{◌≡◌, refl, Bool, true, false, List, [], ◌∷◌, map, filter}
use pwa_attendance_record_sy.Text.{Text, codes}
use pwa_attendance_record_sy.Types.{LateLeaveReason, assigned_overtime, personal}
use pwa_attendance_record_sy.Punch.{PunchPage}
use pwa_attendance_record_sy.Punch.Step.{Event, choose_reason, confirm_reason}

-- An entry of `OPTIONS`
pub record ReasonOption : Type 0 where
  pub value : LateLeaveReason
  pub label_key : Text

abbrev pub options : List ReasonOption
options =
    record { value = assigned_overtime; label_key = codes "punch.lateReasonAssignedOvertime" }
    ∷ record { value = personal; label_key = codes "punch.lateReasonPersonal" }
    ∷ []

unfoldable pub same_reason : LateLeaveReason → LateLeaveReason → Bool
same_reason assigned_overtime assigned_overtime = true
same_reason personal personal = true
same_reason _ _ = false

-- `value === opt.value`
unfoldable pub checked_options : LateLeaveReason → List ReasonOption
unfolding same_reason
checked_options value = filter (λ o. same_reason value o.value) options

-- What a click hits: the space around, the panel, the button of an option, the button below.
pub data ReasonElement : Type 0 where
  around panel confirm_button : ReasonElement
  radio : LateLeaveReason → ReasonElement

-- The events of a click; no key is listened to.
unfoldable pub reason_click : PunchPage → ReasonElement → List Event
reason_click p e = elim p.reason_modal_open [
  | false ↦ []
  | true ↦ elim e [
    | around ↦ []
    | panel ↦ []
    | radio r ↦ choose_reason r ∷ []
    | confirm_button ↦ confirm_reason ∷ []
  ]
]

-- One option is checked, the one of the value.
checked_options-value :
    (r : LateLeaveReason) → map (λ (o : ReasonOption). o.value) (checked_options r) ≡ r ∷ []
unfolding checked_options
checked_options-value assigned_overtime = refl
checked_options-value personal = refl
