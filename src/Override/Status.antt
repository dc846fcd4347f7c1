-- ===== src/Override/Status.antt =====
-- The submission status of the monthly override page
-- (frontend/src/app/dashboard/monthly-override/page.tsx): an effect that loads it for each target
-- and cancels the loads of earlier targets, and the submission, which reads it back and is not
-- cancelled.
pub mod Laws
use pwa_attendance_record_sy.Prelude.{
  remove_at, ℕ, zero, suc, Bool, true, false, List, [], ◌∷◌, ◌++◌, map, Option, none, some,
  get_elem?, if◌then◌else◌,
}
use pwa_attendance_record_sy.Text.{Text}
use pwa_attendance_record_sy.Types.{SubmissionStatus}

-- The employee, the year and the month of a load
pub record Target : Type 0 where
  pub emp_id : Text
  pub year : ℕ
  pub month : ℕ

-- A run of the effect whose request is under way, with its variable `cancelled`
pub record Load : Type 0 where
  pub target : Target
  pub cancelled : Bool

-- The status shown, the target of the last render, the loads under way, and the submissions under
-- way by their targets
pub record StatusState : Type 0 where
  pub status : Option SubmissionStatus
  pub target : Option Target
  pub pending : List Load
  pub submissions : List Target

-- The cleanup of the effect's runs
abbrev pub cancel : Load → Load
cancel l = record l { cancelled = true }

-- The effect for a render with another target; without an employee it forgets the status.
unfoldable pub status_effect : Option Target → StatusState → StatusState
status_effect none s = record s { status = none; target = none; pending = map cancel s.pending }
status_effect (some target) s = record s {
  target = some target;
  pending = map cancel s.pending ++ record { target = target; cancelled = false } ∷ [];
}

-- The rest of `loadStatus`, for the answer of its request, `none` if the request failed
unfoldable pub load_status : Load → Option SubmissionStatus → StatusState → StatusState
load_status l answer s = if l.cancelled then s else record s { status = answer }

-- `performSubmit` up to its requests, for the target of the last render
unfoldable pub perform_submit : Option Target → StatusState → StatusState
perform_submit none s = s
perform_submit (some t) s = record s { submissions = s.submissions ++ t ∷ [] }

pub data Event : Type 0 where
  rendered : Option Target → Event
  -- the load at a position is answered
  answered : ℕ → Event
  -- a submission is sent; the one at a position has read its status back, or has failed
  submitted : Event
  confirmed refused : ℕ → Event

-- The load at position i, if any, is answered.
unfoldable pub on_answer :
    (Target → Option SubmissionStatus) → ℕ → Option Load → StatusState → StatusState
unfolding load_status
on_answer answer i none s = s
on_answer answer i (some l) s =
    load_status l (answer l.target) (record s { pending = remove_at i s.pending })

-- The rest of `performSubmit` for the submission at position i, if any
unfoldable pub on_confirmed :
    (Target → SubmissionStatus) → ℕ → Option Target → StatusState → StatusState
on_confirmed after i none s = s
on_confirmed after i (some t) s = record s {
  status = some (after t);
  submissions = remove_at i s.submissions;
}

-- One event, where the service answers a load for a target with `answer`, and a submission that has
-- been stored with `after`
unfoldable pub step :
    (Target → Option SubmissionStatus)
    → (Target → SubmissionStatus)
    → StatusState
    → Event
    → StatusState
unfolding status_effect perform_submit on_confirmed
step answer after s (rendered target) = status_effect target s
step answer after s (answered i) = on_answer answer i (get_elem? s.pending i) s
step answer after s submitted = perform_submit s.target s
step answer after s (confirmed i) = on_confirmed after i (get_elem? s.submissions i) s
step answer after s (refused i) = record s { submissions = remove_at i s.submissions }

unfoldable pub run :
    (Target → Option SubmissionStatus)
    → (Target → SubmissionStatus)
    → StatusState
    → List Event
    → StatusState
run answer after s [] = s
run answer after s (e ∷ es) = run answer after (step answer after s e) es
