-- ===== src/Tests/Staff.antt =====
-- The employee section at a concrete list (frontend/src/app/admin/page.tsx).
use pwa_attendance_record_sy.Prelude.{◌≡◌, refl, true, false, List, [], ◌∷◌, Option, none, some}
use pwa_attendance_record_sy.Text.{Text, codes, includes, text_eq?}
use pwa_attendance_record_sy.Types.{Employee, employee, manager, admin}
use pwa_attendance_record_sy.Administration.{Viewer}
use pwa_attendance_record_sy.Administration.Employees.{
  EmployeesSection, CreateForm, create, terminate, create_body, update_body,
}
use pwa_attendance_record_sy.Administration.Employees as Employees
use pwa_attendance_record_sy.Administration.Employees.Step as Step
use pwa_attendance_record_sy.Administration.Employees.Safety.{IsAllowed, step-MaySend}
use pwa_attendance_record_sy.Administration.Employees.OneForm.{IsOneForm, run-IsOneForm}
use pwa_attendance_record_sy.Administration.Employees.Form.{
  apply_update, open_form, apply_update-open_form, apply_update-open_form_unlisted,
}

abbrev ann : Employee
ann = record {
  emp_id = codes "EMP01";
  name = codes "Ann";
  department = codes "Sales";
  role = manager;
  shift_start_time = codes "08:30:00";
  shift_end_time = codes "17:30:00";
  terminated_at = none;
  reports_to = none;
  rank = some (codes "Manager");
}

abbrev bob : Employee
bob = record {
  emp_id = codes "EMP02";
  name = codes "Bob";
  department = codes "Labs";
  role = employee;
  shift_start_time = codes "09:00:00";
  shift_end_time = codes "18:00:00";
  terminated_at = none;
  reports_to = some (codes "EMP01");
  rank = some (codes "Clerk");
}

abbrev viewer : Viewer
viewer = record { user_role = admin; current_emp_id = some (codes "EMP01") }

abbrev section : EmployeesSection
section = record {
  employees = ann ∷ bob ∷ [];
  is_loading = false;
  error = none;
  show_create_form = false;
  editing_emp_id = none;
  form_message = none;
  show_terminated = false;
  ranks = codes "Manager" ∷ [];
}

-- The first option
abbrev first_option : List Text → Option Text
first_option [] = none
first_option (x ∷ xs) = some x

-- The user ends another's employment; the button of the own row does nothing.
terminate_sent :
    ((Step.step viewer section (Step.terminate_click 1 true)).1
      ≡ some (record { request = terminate (codes "EMP02"); shown = false }))
    × ((Step.step viewer section (Step.terminate_click 0 true)).1 ≡ none)
unfolding Step.step Employees.handle_terminate Step.can_terminate Employees.send text_eq?
terminate_sent = (refl, refl)

step-MaySend_example :
    IsAllowed viewer section
      (Step.delete_click 1 true)
      (Step.step viewer section (Step.delete_click 1 true)).1
step-MaySend_example = step-MaySend viewer section (Step.delete_click 1 true)

events : List Step.Event
events = Step.add_click ∷ Step.edit_click 1 ∷ Step.add_click ∷ Step.edit_click 0 ∷ []

run-IsOneForm_example : IsOneForm (Step.run viewer section events)
run-IsOneForm_example = run-IsOneForm viewer section events refl

apply_update-open_form_example :
    apply_update
      (λ s. s)
      (update_body (
        open_form first_option false
          (codes "Sales" ∷ codes "Labs" ∷ [])
          section.employees
          (codes "Clerk" ∷ [])
          bob))
      bob
    ≡ bob
unfolding includes Employees.Form.managers_for
apply_update-open_form_example =
    apply_update-open_form first_option (λ s. s) false (codes "Sales" ∷ codes "Labs" ∷ [])
      section.employees (codes "Clerk" ∷ []) bob refl (refl, refl) (refl, refl) refl refl
