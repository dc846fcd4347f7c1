-- ===== src/Administration/Employees/OneForm.antt =====
-- When the forms of the employee section are open (frontend/src/app/admin/page.tsx,
-- EmployeeManagementSection).
use pwa_attendance_record_sy.Prelude.{
  ◌≡◌, refl, Bool, true, false, not, ◌&&◌, List, [], ◌∷◌, Option, none, some, is_some, arith,
  if◌then◌else◌, Bool-cases, inl, inr,
}
use pwa_attendance_record_sy.Types.{Employee}
use pwa_attendance_record_sy.Messages.{Thrown}
use pwa_attendance_record_sy.Administration.{Viewer}
use pwa_attendance_record_sy.Administration.Employees.{
  EmployeesSection, Request, get_employees, create, update, terminate, reactivate, delete, Job,
  fetch_employees, employees_loaded, handle_create, handle_update, handle_terminate,
  handle_reactivate, handle_delete, request_done, request_refused, send, is_self,
}
use pwa_attendance_record_sy.Administration.Employees.Step.{
  Event, show_click, add_click, cancel_create, create_submit, edit_click, cancel_edit,
  update_submit, terminate_click, reactivate_click, delete_click, loaded, ranks_loaded, done,
  refused, row_at, is_editing, can_terminate, can_reactivate, can_delete, on_row, step, run,
}

-- Not both forms are open.
abbrev pub IsOneForm : EmployeesSection → Type 0
IsOneForm p = (p.show_create_form && is_some p.editing_emp_id) ≡ false

IsOneForm-if :
    (b : Bool) (r q : EmployeesSection × Option Job)
    → IsOneForm r.0
    → IsOneForm q.0
    → IsOneForm (if b then r else q).0
IsOneForm-if true r q h k = h
IsOneForm-if false r q h k = k

on_row-IsOneForm :
    (p : EmployeesSection) (o : Option Employee) (can : Employee → Bool)
    (handler : Employee → EmployeesSection × Option Job)
    → IsOneForm p
    → ((emp : Employee) → IsOneForm (handler emp).0)
    → IsOneForm (on_row p o can handler).0
on_row-IsOneForm p none can handler h f = h
on_row-IsOneForm p (some emp) can handler h f =
    IsOneForm-if (can emp) (handler emp) (p, none) (f emp) h

done-IsOneForm :
    (p : EmployeesSection) (r : Request) (shown : Bool)
    → IsOneForm p
    → IsOneForm (request_done r shown p).0
unfolding request_done
done-IsOneForm p (get_employees b) shown h = h
done-IsOneForm p (create body) shown h = refl
done-IsOneForm p (update id body) shown h = ground arith
done-IsOneForm p (terminate id) shown h = h
done-IsOneForm p (reactivate id) shown h = h
done-IsOneForm p (delete id) shown h = h

refused-IsOneForm :
    (p : EmployeesSection) (r : Request) (err : Thrown)
    → IsOneForm p
    → IsOneForm (request_refused r err p)
unfolding request_refused
refused-IsOneForm p (get_employees b) err h = h
refused-IsOneForm p (create body) err h = h
refused-IsOneForm p (update id body) err h = h
refused-IsOneForm p (terminate id) err h = h
refused-IsOneForm p (reactivate id) err h = h
refused-IsOneForm p (delete id) err h = h

handle_terminate-IsOneForm :
    (v : Viewer) (c : Bool) (emp : Employee) (p : EmployeesSection)
    → IsOneForm p
    → IsOneForm (handle_terminate v c emp p).0
unfolding handle_terminate
handle_terminate-IsOneForm v c emp p h = elim (Bool-cases (is_self v emp)) [
  | inl e ↦ rw e h
  | inr e ↦ rw e (IsOneForm-if c (send (terminate emp.emp_id) p) (p, none) h h)
]

handle_reactivate-IsOneForm :
    (c : Bool) (emp : Employee) (p : EmployeesSection)
    → IsOneForm p
    → IsOneForm (handle_reactivate c emp p).0
unfolding handle_reactivate
handle_reactivate-IsOneForm c emp p h =
    IsOneForm-if c (send (reactivate emp.emp_id) p) (p, none) h h

handle_delete-IsOneForm :
    (v : Viewer) (c : Bool) (emp : Employee) (p : EmployeesSection)
    → IsOneForm p
    → IsOneForm (handle_delete v c emp p).0
unfolding handle_delete
handle_delete-IsOneForm v c emp p h = elim (Bool-cases (is_self v emp)) [
  | inl e ↦ rw e h
  | inr e ↦ rw e (IsOneForm-if c (send (delete emp.emp_id) p) (p, none) h h)
]

step-IsOneForm :
    (v : Viewer) (p : EmployeesSection) (e : Event) → IsOneForm p → IsOneForm (step v p e).0
unfolding step
step-IsOneForm v p show_click h = unfold fetch_employees in h
step-IsOneForm v p add_click h = ground arith
step-IsOneForm v p cancel_create h = refl
step-IsOneForm v p (create_submit f) h =
    IsOneForm-if p.show_create_form (handle_create f p) (p, none) (unfold handle_create in h) h
step-IsOneForm v p (edit_click i) h =
    on_row-IsOneForm p (row_at p i) (λ emp. not (is_editing p emp))
      (λ emp. (record p { editing_emp_id = some emp.emp_id; show_create_form = false }, none)) h
      (λ _. refl)
step-IsOneForm v p cancel_edit h = ground arith
step-IsOneForm v p (update_submit i f) h =
    on_row-IsOneForm p (row_at p i) (is_editing p) (λ emp. handle_update f emp.emp_id p) h
      (λ _. unfold handle_update in h)
step-IsOneForm v p (terminate_click i c) h =
    on_row-IsOneForm p (row_at p i) (can_terminate v p) (λ emp. handle_terminate v c emp p) h
      (λ emp. handle_terminate-IsOneForm v c emp p h)
step-IsOneForm v p (reactivate_click i c) h =
    on_row-IsOneForm p (row_at p i) (can_reactivate v p) (λ emp. handle_reactivate c emp p) h
      (λ emp. handle_reactivate-IsOneForm c emp p h)
step-IsOneForm v p (delete_click i c) h =
    on_row-IsOneForm p (row_at p i) (can_delete v p) (λ emp. handle_delete v c emp p) h
      (λ emp. handle_delete-IsOneForm v c emp p h)
step-IsOneForm v p (loaded answer) h = unfold employees_loaded in h
step-IsOneForm v p (ranks_loaded answer) h = h
step-IsOneForm v p (done job) h = done-IsOneForm p job.request job.shown h
step-IsOneForm v p (refused job err) h = refused-IsOneForm p job.request err h

-- From a section with at most one of them open, whatever the user does and the requests bring back,
-- the create form and the edit form of a row are never open together.
pub run-IsOneForm :
    (v : Viewer) (p : EmployeesSection) (es : List Event) → IsOneForm p → IsOneForm (run v p es)
unfolding run
run-IsOneForm v p [] h = h
run-IsOneForm v p (e ∷ es) h = run-IsOneForm v (step v p e).0 es (step-IsOneForm v p e h)
