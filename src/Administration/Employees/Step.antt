-- ===== src/Administration/Employees/Step.antt =====
-- The events of the employee section (frontend/src/app/admin/page.tsx, EmployeeManagementSection),
-- and which requests its buttons can send.
use pwa_attendance_record_sy.Prelude.{
  ℕ, Bool, true, false, not, ◌&&◌, List, [], ◌∷◌, Option, none, some, or_else, get_elem?,
  if◌then◌else◌,
}
use pwa_attendance_record_sy.Text.{Text, text_eq?, truthy?}
use pwa_attendance_record_sy.Types.{Role, admin, Employee}
use pwa_attendance_record_sy.Messages.{Thrown}
use pwa_attendance_record_sy.Administration.{Viewer}
use pwa_attendance_record_sy.Administration.Employees.{
  EmployeesSection, CreateForm, UpdateForm, Job, fetch_employees, employees_loaded, handle_create,
  handle_update, handle_terminate, handle_reactivate, handle_delete, request_done, request_refused,
}

pub data Event : Type 0 where
  -- the checkbox, the button over the list, and the create form
  show_click add_click cancel_create : Event
  create_submit : CreateForm → Event
  -- the edit form of the row, by the row's position
  edit_click : ℕ → Event
  cancel_edit : Event
  update_submit : ℕ → UpdateForm → Event
  -- the buttons of a row, with what the user answers when asked
  terminate_click reactivate_click delete_click : ℕ → Bool → Event
  -- what the requests bring back
  loaded : List Employee → Event
  ranks_loaded : Option (List Text) → Event
  done : Job → Event
  refused : Job → Thrown → Event

-- `userRole === "ADMIN"`
unfoldable pub is_admin : Role → Bool
is_admin admin = true
is_admin _ = false

-- The row at a position of the list that is shown
unfoldable pub row_at : EmployeesSection → ℕ → Option Employee
row_at p i =
    if p.is_loading
    then none
    else elim p.error [ some note ↦ none | none ↦ get_elem? p.employees i ]

-- `editingEmpId === emp.emp_id`: the row is its edit form.
unfoldable pub is_editing : EmployeesSection → Employee → Bool
is_editing p emp = text_eq? p.editing_emp_id (some emp.emp_id)

-- `currentEmpId !== emp.emp_id`
unfoldable pub is_other : Viewer → Employee → Bool
is_other v emp = not (text_eq? v.current_emp_id (some emp.emp_id))

-- The buttons that a row has
unfoldable pub can_terminate : Viewer → EmployeesSection → Employee → Bool
unfolding is_editing is_other
can_terminate v p emp = not (is_editing p emp) && is_other v emp && not (truthy? emp.terminated_at)

unfoldable pub can_reactivate : Viewer → EmployeesSection → Employee → Bool
unfolding is_editing is_other
can_reactivate v p emp = not (is_editing p emp) && is_other v emp && truthy? emp.terminated_at

unfoldable pub can_delete : Viewer → EmployeesSection → Employee → Bool
unfolding can_terminate is_admin
can_delete v p emp = can_terminate v p emp && is_admin v.user_role

abbrev pub on_row :
    EmployeesSection
    → Option Employee
    → (Employee → Bool)
    → (Employee → EmployeesSection × Option Job)
    → EmployeesSection × Option Job
on_row p none can handler = (p, none)
on_row p (some emp) can handler = if can emp then handler emp else (p, none)

unfoldable pub step : Viewer → EmployeesSection → Event → EmployeesSection × Option Job
unfolding row_at is_editing can_terminate can_reactivate can_delete
step v p show_click =
    let shown = not p.show_terminated in
    fetch_employees shown (record p { show_terminated = shown })
step v p add_click =
    (record p { show_create_form = not p.show_create_form; editing_emp_id = none }, none)
step v p cancel_create = (record p { show_create_form = false }, none)
step v p (create_submit f) = if p.show_create_form then handle_create f p else (p, none)
step v p (edit_click i) =
    on_row p (row_at p i) (λ emp. not (is_editing p emp))
      (λ emp. (record p { editing_emp_id = some emp.emp_id; show_create_form = false }, none))
step v p cancel_edit = (record p { editing_emp_id = none }, none)
step v p (update_submit i f) =
    on_row p (row_at p i) (is_editing p) (λ emp. handle_update f emp.emp_id p)
step v p (terminate_click i confirmed) =
    on_row p (row_at p i) (can_terminate v p) (λ emp. handle_terminate v confirmed emp p)
step v p (reactivate_click i confirmed) =
    on_row p (row_at p i) (can_reactivate v p) (λ emp. handle_reactivate confirmed emp p)
step v p (delete_click i confirmed) =
    on_row p (row_at p i) (can_delete v p) (λ emp. handle_delete v confirmed emp p)
step v p (loaded answer) = (employees_loaded answer p, none)
step v p (ranks_loaded answer) = (record p { ranks = or_else answer [] }, none)
step v p (done job) = request_done job.request job.shown p
step v p (refused job err) = (request_refused job.request err p, none)

unfoldable pub run : Viewer → EmployeesSection → List Event → EmployeesSection
run v p [] = p
run v p (e ∷ es) = run v (step v p e).0 es
