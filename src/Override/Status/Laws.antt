-- ===== src/Override/Status/Laws.antt =====
-- The order of the answers does not matter to the submission status
-- (frontend/src/app/dashboard/monthly-override/page.tsx).
use pwa_attendance_record_sy.Prelude.{
  remove_at, ℕ, zero, suc, ◌≡◌, refl, ap, ◌∙◌, subst, ◌⊎◌, inl, inr, Bool, true, false, List, [],
  ◌∷◌, ◌++◌, map, Option, none, some, get_elem?, All, all, arith, Bool-cases, or_else,
}
use pwa_attendance_record_sy.Types.{SubmissionStatus}
use pwa_attendance_record_sy.Override.Status.{
  Target, Load, StatusState, cancel, status_effect, load_status, on_answer, on_confirmed,
  perform_submit, Event, rendered, answered, submitted, confirmed, refused, step, run,
}

-- The status for a target: none where there is no employee
abbrev pub status_of : (Target → Option SubmissionStatus) → Option Target → Option SubmissionStatus
status_of answer none = none
status_of answer (some t) = answer t

-- The status is one of the target: that of a load, or that after its submission.
abbrev pub IsOf :
    (Target → Option SubmissionStatus)
    → (Target → SubmissionStatus)
    → Option Target
    → Option SubmissionStatus
    → Type 0
IsOf answer after target status =
    (status ≡ status_of answer target)
    ⊎ ((t : Target) × (target ≡ some t) × (status ≡ some (after t)))

-- A submission, if any, is one for the current target.
abbrev IsHere : Option Target → Option Target → Type 0
IsHere target none = Unit
IsHere target (some t) = target ≡ some t

-- The user stays with the target of a submission until its status has been read back.
abbrev IsStaying : StatusState → Event → Type 0
IsStaying s (confirmed i) = IsHere s.target (get_elem? s.submissions i)
IsStaying s _ = Unit

abbrev pub Stays :
    (Target → Option SubmissionStatus)
    → (Target → SubmissionStatus)
    → StatusState
    → List Event
    → Type 0
Stays answer after s [] = Unit
Stays answer after s (e ∷ es) = IsStaying s e × Stays answer after (step answer after s e) es

-- Every load under way is cancelled.
abbrev pub no_live : List Load → Bool
no_live ls = all (λ (l : Load). l.cancelled) ls

-- A load that is not cancelled is one for the current target.
abbrev IsCurrent : Option Target → Load → Type 0
IsCurrent target l = (l.cancelled ≡ true) ⊎ (some l.target ≡ target)

-- Some load is live, or the status shown is the current target's.
abbrev IsFresh :
    (Target → Option SubmissionStatus) → (Target → SubmissionStatus) → StatusState → Type 0
IsFresh answer after s =
    All (IsCurrent s.target) s.pending
    × ((no_live s.pending ≡ false) ⊎ IsOf answer after s.target s.status)

All-cancel : (target : Option Target) (ls : List Load) → All (IsCurrent target) (map cancel ls)
All-cancel target [] = tt
All-cancel target (l ∷ ls) = (inl refl, All-cancel target ls)

All-append_last :
    (target : Option Target) (ls : List Load) (l : Load)
    → All (IsCurrent target) ls
    → IsCurrent target l
    → All (IsCurrent target) (ls ++ l ∷ [])
All-append_last target [] l h k = (k, tt)
All-append_last target (m ∷ ls) l (h, hs) k = (h, All-append_last target ls l hs k)

no_live-append_last :
    (ls : List Load) (l : Load) → l.cancelled ≡ false → no_live (ls ++ l ∷ []) ≡ false
no_live-append_last [] l h = ground (arith, h)
no_live-append_last (m ∷ ls) l h = ground (arith, no_live-append_last ls l h)

All-remove_at :
    (target : Option Target) (i : ℕ) (ls : List Load)
    → All (IsCurrent target) ls
    → All (IsCurrent target) (remove_at i ls)
All-remove_at target i [] h = tt
All-remove_at target zero (l ∷ ls) (h, hs) = hs
All-remove_at target (suc i) (l ∷ ls) (h, hs) = (h, All-remove_at target i ls hs)

All-get_elem :
    (target : Option Target) (i : ℕ) (ls : List Load) (l : Load)
    → All (IsCurrent target) ls
    → get_elem? ls i ≡ some l
    → IsCurrent target l
All-get_elem target i [] l h e = ground (arith, e)
All-get_elem target zero (m ∷ ls) l (h, hs) e = subst (IsCurrent target) (ap (λ o. or_else o m) e) h
All-get_elem target (suc i) (m ∷ ls) l (h, hs) e = All-get_elem target i ls l hs e

no_live-remove_at :
    (i : ℕ) (ls : List Load) (l : Load)
    → get_elem? ls i ≡ some l
    → l.cancelled ≡ true
    → no_live ls ≡ false
    → no_live (remove_at i ls) ≡ false
no_live-remove_at i [] l e c n = ground (arith, e)
no_live-remove_at zero (m ∷ ls) l e c n =
    let gone = ap (λ o. (or_else o m).cancelled) e ∙ c in ground (arith, gone, n)
no_live-remove_at (suc i) (m ∷ ls) l e c n = ground (arith, n, no_live-remove_at i ls l e c)

status_effect-IsFresh :
    (answer : Target → Option SubmissionStatus) (after : Target → SubmissionStatus)
    (target : Option Target) (s : StatusState)
    → IsFresh answer after (status_effect target s)
unfolding status_effect
status_effect-IsFresh answer after none s = (All-cancel none s.pending, inr (inl refl))
status_effect-IsFresh answer after (some t) s =
    let new : Load = record { target = t; cancelled = false } in
    (
      All-append_last (some t) (map cancel s.pending) new (All-cancel (some t) s.pending)
          (inr refl),
      inl (no_live-append_last (map cancel s.pending) new refl),
    )

answered_cancelled :
    (answer : Target → Option SubmissionStatus) (after : Target → SubmissionStatus)
    (s : StatusState) (i : ℕ) (l : Load)
    → get_elem? s.pending i ≡ some l
    → l.cancelled ≡ true
    → IsFresh answer after s
    → IsFresh answer after (record s { pending = remove_at i s.pending })
answered_cancelled answer after s i l e c (all_current, inl n) =
    (All-remove_at s.target i s.pending all_current, inl (no_live-remove_at i s.pending l e c n))
answered_cancelled answer after s i l e c (all_current, inr shown) =
    (All-remove_at s.target i s.pending all_current, inr shown)

answered_live :
    (answer : Target → Option SubmissionStatus) (after : Target → SubmissionStatus)
    (s : StatusState) (i : ℕ) (l : Load)
    → get_elem? s.pending i ≡ some l
    → l.cancelled ≡ false
    → All (IsCurrent s.target) s.pending
    → IsFresh answer after (record s { status = answer l.target; pending = remove_at i s.pending })
answered_live answer after s i l e c h = (
  All-remove_at s.target i s.pending h,
  elim (All-get_elem s.target i s.pending l h e) [
    | inl gone ↦ absurd (ground (arith, gone, c))
    | inr same ↦ inr (inl (ap (status_of answer) same))
  ],
)

load_status-IsFresh :
    (answer : Target → Option SubmissionStatus) (after : Target → SubmissionStatus)
    (s : StatusState) (i : ℕ) (l : Load)
    → get_elem? s.pending i ≡ some l
    → IsFresh answer after s
    → IsFresh answer after
        (load_status l (answer l.target) (record s { pending = remove_at i s.pending }))
unfolding load_status
load_status-IsFresh answer after s i l e h = elim (Bool-cases l.cancelled) [
  | inl c ↦ rw c (answered_cancelled answer after s i l e c h)
  | inr c ↦ rw c (answered_live answer after s i l e c h.0)
]

on_answer-IsFresh :
    (answer : Target → Option SubmissionStatus) (after : Target → SubmissionStatus)
    (s : StatusState) (i : ℕ) (o : Option Load)
    → get_elem? s.pending i ≡ o
    → IsFresh answer after s
    → IsFresh answer after (on_answer answer i o s)
unfolding on_answer
on_answer-IsFresh answer after s i none e h = h
on_answer-IsFresh answer after s i (some l) e h = load_status-IsFresh answer after s i l e h

on_confirmed-IsFresh :
    (answer : Target → Option SubmissionStatus) (after : Target → SubmissionStatus)
    (s : StatusState) (i : ℕ) (o : Option Target)
    → IsHere s.target o
    → IsFresh answer after s
    → IsFresh answer after (on_confirmed after i o s)
unfolding on_confirmed
on_confirmed-IsFresh answer after s i none k h = h
on_confirmed-IsFresh answer after s i (some t) k h = (h.0, inr (inr (t, k, refl)))

perform_submit-IsFresh :
    (answer : Target → Option SubmissionStatus) (after : Target → SubmissionStatus)
    (s : StatusState) (o : Option Target)
    → IsFresh answer after s
    → IsFresh answer after (perform_submit o s)
unfolding perform_submit
perform_submit-IsFresh answer after s none h = h
perform_submit-IsFresh answer after s (some t) h = h

step-IsFresh :
    (answer : Target → Option SubmissionStatus) (after : Target → SubmissionStatus)
    (s : StatusState) (e : Event)
    → IsStaying s e
    → IsFresh answer after s
    → IsFresh answer after (step answer after s e)
unfolding step
step-IsFresh answer after s (rendered target) k h = status_effect-IsFresh answer after target s
step-IsFresh answer after s (answered i) k h =
    on_answer-IsFresh answer after s i (get_elem? s.pending i) refl h
step-IsFresh answer after s submitted k h = perform_submit-IsFresh answer after s s.target h
step-IsFresh answer after s (confirmed i) k h =
    on_confirmed-IsFresh answer after s i (get_elem? s.submissions i) k h
step-IsFresh answer after s (refused i) k h = h

run-IsFresh :
    (answer : Target → Option SubmissionStatus) (after : Target → SubmissionStatus)
    (s : StatusState) (es : List Event)
    → Stays answer after s es
    → IsFresh answer after s
    → IsFresh answer after (run answer after s es)
unfolding run
run-IsFresh answer after s [] k h = h
run-IsFresh answer after s (e ∷ es) (k, ks) h =
    run-IsFresh answer after (step answer after s e) es ks (step-IsFresh answer after s e k h)

-- From the first render on, in whatever order the answers arrive, and whether requests fail or not,
-- as long as no submission's status is read back after the page has gone on to another employee or
-- month: a load that is not cancelled is under way, or the page shows a status of the current
-- employee and month, the one that a load is answered with or the one after the submission, and none
-- where there is no employee.
pub run-status :
    (answer : Target → Option SubmissionStatus) (after : Target → SubmissionStatus)
    (first : Option Target) (es : List Event)
    → let fresh : StatusState = record {
      status = none;
      target = none;
      pending = [];
      submissions = [];
    } in
      Stays answer after fresh (rendered first ∷ es)
      → let s = run answer after fresh (rendered first ∷ es) in
        (no_live s.pending ≡ false) ⊎ IsOf answer after s.target s.status
run-status answer after first es k =
    (run-IsFresh answer after
      (record { status = none; target = none; pending = []; submissions = [] })
      (rendered first ∷ es) k (tt, inr (inl refl))).1

-- A submission whose status is read back after the page has gone on to another month, and after that
-- month's load, leaves the submitted month's status under the other month.
pub run-stale :
    (answer : Target → Option SubmissionStatus) (after : Target → SubmissionStatus) (t u : Target)
    → let fresh : StatusState = record {
      status = none;
      target = none;
      pending = [];
      submissions = [];
    } in
      let s = run answer after fresh (
        rendered (some t)
        ∷ answered 0
        ∷ submitted
        ∷ rendered (some u)
        ∷ answered 0
        ∷ confirmed 0
        ∷ []) in
      (s.target ≡ some u) × (s.status ≡ some (after t)) × (s.pending ≡ [])
unfolding run step status_effect on_answer load_status perform_submit on_confirmed
run-stale answer after t u = (refl, refl, refl)
