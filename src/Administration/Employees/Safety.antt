-- ===== src/Administration/Employees/Safety.antt =====
-- Which requests the employee section sends
-- (frontend/src/app/admin/page.tsx, EmployeeManagementSection).
use pwa_attendance_record_sy.Prelude.{
  ℕ, ◌≡◌, refl, ◌≢◌, Bool, true, false, not, Option, none, some, arith, get_elem?, if◌then◌else◌,
  Bool-cases, and_true, inl, inr,
}
use pwa_attendance_record_sy.Text.{truthy?}
use pwa_attendance_record_sy.Text.Laws.{text_eq?_iff}
use pwa_attendance_record_sy.Types.{Role, employee, manager, hr, admin, Employee}
use pwa_attendance_record_sy.Administration.{Viewer}
use pwa_attendance_record_sy.Administration.Employees.{
  EmployeesSection, CreateForm, UpdateForm, Request, get_employees, create, update, terminate,
  reactivate, delete, Job, create_body, update_body, fetch_employees, handle_create, handle_update,
  handle_terminate, handle_reactivate, handle_delete, request_done, send, is_self,
}
use pwa_attendance_record_sy.Administration.Employees.Step.{
  Event, show_click, add_click, cancel_create, create_submit, edit_click, cancel_edit,
  update_submit, terminate_click, reactivate_click, delete_click, loaded, ranks_loaded, done,
  refused, is_admin, row_at, is_editing, is_other, can_terminate, can_reactivate, can_delete,
  on_row, step,
}

-- The employee stands at the position of the list that is loaded and shown.
abbrev pub IsRow : EmployeesSection → ℕ → Employee → Type 0
IsRow p i emp = (p.is_loading ≡ false) × (p.error ≡ none) × (get_elem? p.employees i ≡ some emp)

-- The requests that an event may send: those that change an employee only for a row that is shown,
-- after the user has agreed, never for the user's own account, and a deletion only for an
-- administrator.
pub data MaySend (v : Viewer) (p : EmployeesSection) : Event → Request → Type 0 where
  may_refresh : (e : Event) (shown : Bool) → MaySend v p e (get_employees shown)
  may_create :
      (f : CreateForm)
      → p.show_create_form ≡ true
      → MaySend v p (create_submit f) (create (create_body f))
  may_update :
      (i : ℕ) (f : UpdateForm) (emp : Employee)
      → IsRow p i emp
      → p.editing_emp_id ≡ some emp.emp_id
      → MaySend v p (update_submit i f) (update emp.emp_id (update_body f))
  may_terminate :
      (i : ℕ) (emp : Employee)
      → IsRow p i emp
      → v.current_emp_id ≢ some emp.emp_id
      → truthy? emp.terminated_at ≡ false
      → MaySend v p (terminate_click i true) (terminate emp.emp_id)
  may_reactivate :
      (i : ℕ) (emp : Employee)
      → IsRow p i emp
      → v.current_emp_id ≢ some emp.emp_id
      → truthy? emp.terminated_at ≡ true
      → MaySend v p (reactivate_click i true) (reactivate emp.emp_id)
  may_delete :
      (i : ℕ) (emp : Employee)
      → IsRow p i emp
      → v.current_emp_id ≢ some emp.emp_id
      → truthy? emp.terminated_at ≡ false
      → v.user_role ≡ admin
      → MaySend v p (delete_click i true) (delete emp.emp_id)

-- Nothing is sent, or what the event may send
abbrev pub IsAllowed : Viewer → EmployeesSection → Event → Option Job → Type 0
IsAllowed v p e none = Unit
IsAllowed v p e (some job) = MaySend v p e job.request

IsAllowed-if :
    (b : Bool) (v : Viewer) (p : EmployeesSection) (e : Event) (r q : EmployeesSection × Option Job)
    → (b ≡ true → IsAllowed v p e r.1)
    → (b ≡ false → IsAllowed v p e q.1)
    → IsAllowed v p e (if b then r else q).1
IsAllowed-if true v p e r q f g = f refl
IsAllowed-if false v p e r q f g = g refl

row_at-IsRow :
    (p : EmployeesSection) (i : ℕ) (emp : Employee) → row_at p i ≡ some emp → IsRow p i emp
unfolding row_at
row_at-IsRow p i emp h = ground (arith, h)

on_row-IsAllowed :
    (v : Viewer) (p : EmployeesSection) (e : Event) (i : ℕ) (o : Option Employee)
    (can : Employee → Bool) (handler : Employee → EmployeesSection × Option Job)
    → row_at p i ≡ o
    → ((emp : Employee) → IsRow p i emp → can emp ≡ true → IsAllowed v p e (handler emp).1)
    → IsAllowed v p e (on_row p o can handler).1
on_row-IsAllowed v p e i none can handler h f = tt
on_row-IsAllowed v p e i (some emp) can handler h f =
    IsAllowed-if (can emp) v p e (handler emp) (p, none) (f emp (row_at-IsRow p i emp h)) (λ _. tt)

other_lem :
    (v : Viewer) (emp : Employee) → is_other v emp ≡ true → v.current_emp_id ≢ some emp.emp_id
unfolding is_other
other_lem v emp h = ground (arith, text_eq?_iff v.current_emp_id (some emp.emp_id))

admin_lem : (r : Role) → is_admin r ≡ true → r ≡ admin
unfolding is_admin
admin_lem employee h = ground (arith, h)
admin_lem manager h = ground (arith, h)
admin_lem hr h = ground (arith, h)
admin_lem admin h = refl

can_terminate_lem :
    (v : Viewer) (p : EmployeesSection) (emp : Employee)
    → can_terminate v p emp ≡ true
    → (v.current_emp_id ≢ some emp.emp_id) × (truthy? emp.terminated_at ≡ false)
unfolding can_terminate
can_terminate_lem v p emp h = (other_lem v emp (ground (arith, h)), ground (arith, h))

can_reactivate_lem :
    (v : Viewer) (p : EmployeesSection) (emp : Employee)
    → can_reactivate v p emp ≡ true
    → (v.current_emp_id ≢ some emp.emp_id) × (truthy? emp.terminated_at ≡ true)
unfolding can_reactivate
can_reactivate_lem v p emp h = (other_lem v emp (ground (arith, h)), ground (arith, h))

request_done-IsAllowed :
    (v : Viewer) (p : EmployeesSection) (e : Event) (r : Request) (shown : Bool)
    → IsAllowed v p e (request_done r shown p).1
unfolding request_done fetch_employees
request_done-IsAllowed v p e (get_employees b) shown = tt
request_done-IsAllowed v p e (create body) shown = may_refresh e shown
request_done-IsAllowed v p e (update id body) shown = may_refresh e shown
request_done-IsAllowed v p e (terminate id) shown = may_refresh e shown
request_done-IsAllowed v p e (reactivate id) shown = may_refresh e shown
request_done-IsAllowed v p e (delete id) shown = may_refresh e shown

terminate_click-IsAllowed :
    (v : Viewer) (p : EmployeesSection) (i : ℕ) (confirmed : Bool) (emp : Employee)
    → IsRow p i emp
    → can_terminate v p emp ≡ true
    → IsAllowed v p (terminate_click i confirmed) (handle_terminate v confirmed emp p).1
unfolding handle_terminate
terminate_click-IsAllowed v p i confirmed emp row can =
    let k = can_terminate_lem v p emp can in
    elim (Bool-cases (is_self v emp)) [
      | inl e ↦ rw e tt
      | inr e ↦
          rw e
            (elim confirmed
              as (λ b.
                IsAllowed v p (terminate_click i b)
                  (if b then send (terminate emp.emp_id) p else (p, none)).1) [
                    | true ↦ may_terminate i emp row k.0 k.1
                    | false ↦ tt
                  ])
    ]

reactivate_click-IsAllowed :
    (v : Viewer) (p : EmployeesSection) (i : ℕ) (confirmed : Bool) (emp : Employee)
    → IsRow p i emp
    → can_reactivate v p emp ≡ true
    → IsAllowed v p (reactivate_click i confirmed) (handle_reactivate confirmed emp p).1
unfolding handle_reactivate
reactivate_click-IsAllowed v p i true emp row can =
    let k = can_reactivate_lem v p emp can in may_reactivate i emp row k.0 k.1
reactivate_click-IsAllowed v p i false emp row can = tt

delete_click-IsAllowed :
    (v : Viewer) (p : EmployeesSection) (i : ℕ) (confirmed : Bool) (emp : Employee)
    → IsRow p i emp
    → can_delete v p emp ≡ true
    → IsAllowed v p (delete_click i confirmed) (handle_delete v confirmed emp p).1
unfolding handle_delete
delete_click-IsAllowed v p i confirmed emp row can =
    let both = and_true (can_terminate v p emp) (is_admin v.user_role) (unfold can_delete in can) in
    let k = can_terminate_lem v p emp both.0 in
    elim (Bool-cases (is_self v emp)) [
      | inl e ↦ rw e tt
      | inr e ↦
          rw e
            (elim confirmed
              as (λ b.
                IsAllowed v p (delete_click i b)
                  (if b then send (delete emp.emp_id) p else (p, none)).1) [
                    | true ↦ may_delete i emp row k.0 k.1 (admin_lem v.user_role both.1)
                    | false ↦ tt
                  ])
    ]

-- The section changes an employee only by a control of a row of the list that is loaded and shown:
-- it updates the row that is its edit form, and ends or resumes employment, or deletes, only after
-- the user has agreed and never for the user's own account; it ends or deletes only who is not
-- terminated, resumes only who is, and deletes only for an administrator. It creates an employee
-- only from the open create form, and any other request only asks for the list.
pub step-MaySend : (v : Viewer) (p : EmployeesSection) (e : Event) → IsAllowed v p e (step v p e).1
unfolding step
step-MaySend v p show_click =
    unfold fetch_employees in may_refresh show_click (not p.show_terminated)
step-MaySend v p add_click = tt
step-MaySend v p cancel_create = tt
step-MaySend v p (create_submit f) =
    IsAllowed-if p.show_create_form v p (create_submit f) (handle_create f p) (p, none)
      (λ h. unfold handle_create in may_create f h) (λ _. tt)
step-MaySend v p (edit_click i) =
    on_row-IsAllowed v p (edit_click i) i (row_at p i) (λ emp. not (is_editing p emp))
      (λ emp. (record p { editing_emp_id = some emp.emp_id; show_create_form = false }, none)) refl
      (λ _ _ _. tt)
step-MaySend v p cancel_edit = tt
step-MaySend v p (update_submit i f) =
    on_row-IsAllowed v p (update_submit i f) i (row_at p i) (is_editing p)
      (λ emp. handle_update f emp.emp_id p) refl
      (λ emp row h.
        unfold handle_update is_editing in
        may_update i f emp row ((text_eq?_iff p.editing_emp_id (some emp.emp_id)).0 h))
step-MaySend v p (terminate_click i c) =
    on_row-IsAllowed v p (terminate_click i c) i (row_at p i) (can_terminate v p)
      (λ emp. handle_terminate v c emp p) refl (terminate_click-IsAllowed v p i c)
step-MaySend v p (reactivate_click i c) =
    on_row-IsAllowed v p (reactivate_click i c) i (row_at p i) (can_reactivate v p)
      (λ emp. handle_reactivate c emp p) refl (reactivate_click-IsAllowed v p i c)
step-MaySend v p (delete_click i c) =
    on_row-IsAllowed v p (delete_click i c) i (row_at p i) (can_delete v p)
      (λ emp. handle_delete v c emp p) refl (delete_click-IsAllowed v p i c)
step-MaySend v p (loaded answer) = tt
step-MaySend v p (ranks_loaded answer) = tt
step-MaySend v p (done job) = request_done-IsAllowed v p (done job) job.request job.shown
step-MaySend v p (refused job err) = tt
