-- ===== src/Administration/Employees.antt =====
-- frontend/src/app/admin/page.tsx, EmployeeManagementSection: its state, its requests and what its
-- forms send.

pub mod Step
pub mod Safety
pub mod OneForm
pub mod Form
use pwa_attendance_record_sy.Prelude.{
  Bool, true, false, not, ◌&&◌, List, [], ◌∷◌, ◌++◌, Option, none, some, or_else, map, filter,
  field_of, maybe_field, is_some, if◌then◌else◌,
}
use pwa_attendance_record_sy.Text.{Text, text_eq, text_eq?, codes, truthy, truthy?, or_null}
use pwa_attendance_record_sy.Types.{Role, admin, Employee, EmployeeCreate, EmployeeUpdate}
use pwa_attendance_record_sy.Messages.{Note, said, Thrown, message_or}
use pwa_attendance_record_sy.Administration.{Viewer, error_message}

-- The values of the create form, whose controls all have one
pub record CreateForm : Type 0 where
  pub emp_id : Text
  pub name : Text
  pub department : Text
  pub role : Role
  pub password : Text
  pub shift_start_time : Text
  pub shift_end_time : Text
  pub reports_to : Text
  pub rank : Text

-- The body of `handleCreate`: a blank manager or rank is left out.
unfoldable pub create_body : CreateForm → EmployeeCreate
create_body f = record {
  emp_id = f.emp_id;
  name = f.name;
  department = f.department;
  role = f.role;
  password = f.password;
  shift_start_time = f.shift_start_time;
  shift_end_time = f.shift_end_time;
  reports_to = or_null f.reports_to;
  rank = or_null f.rank;
}

-- The values of the edit form; `none` where the form has no such control, or a choice without
-- options
pub record UpdateForm : Type 0 where
  pub name : Text
  pub department : Option Text
  pub role : Option Role
  pub shift_start_time : Text
  pub shift_end_time : Text
  pub password : Text
  pub reports_to : Option Text
  pub rank : Option Text

-- The body of `handleUpdate`: blank fields are left out, but a blank manager or rank is null.
unfoldable pub update_body : UpdateForm → EmployeeUpdate
update_body f = record {
  name = or_null f.name;
  department = maybe_field or_null f.department;
  role = f.role;
  password = or_null f.password;
  shift_start_time = or_null f.shift_start_time;
  shift_end_time = or_null f.shift_end_time;
  reports_to = field_of or_null f.reports_to;
  rank = field_of or_null f.rank;
}

pub data Request : Type 0 where
  -- with the terminated employees, or without
  get_employees : Bool → Request
  create : EmployeeCreate → Request
  update : Text → EmployeeUpdate → Request
  terminate reactivate delete : Text → Request

-- The path that a request is sent to
unfoldable pub path_of : Request → Text
path_of (get_employees shown) =
    codes "/api/employees" ++ (if shown then codes "?include_terminated=true" else [])
path_of (create body) = codes "/api/employees"
path_of (update id body) = codes "/api/employees/" ++ id
path_of (terminate id) = codes "/api/employees/" ++ (id ++ codes "/terminate")
path_of (reactivate id) = codes "/api/employees/" ++ (id ++ codes "/reactivate")
path_of (delete id) = codes "/api/employees/" ++ id

-- A request with `showTerminated` as the handler that sent it saw it
pub record Job : Type 0 where
  pub request : Request
  pub shown : Bool

pub data FormMessage : Type 0 where
  success failure : Note → FormMessage

pub record EmployeesSection : Type 0 where
  pub employees : List Employee
  pub is_loading : Bool
  pub error : Option Note
  pub show_create_form : Bool
  pub editing_emp_id : Option Text
  pub form_message : Option FormMessage
  pub show_terminated : Bool
  pub ranks : List Text

-- `fetchEmployees`, of a handler that saw `shown`, and how it ends
unfoldable pub fetch_employees : Bool → EmployeesSection → EmployeesSection × Option Job
fetch_employees shown p =
    (record p { is_loading = true }, some (record { request = get_employees shown; shown = shown }))

unfoldable pub employees_loaded : List Employee → EmployeesSection → EmployeesSection
employees_loaded answer p = record p { employees = answer; error = none; is_loading = false }

unfoldable pub employees_refused : Thrown → EmployeesSection → EmployeesSection
employees_refused err p = record p {
  error = some (message_or err (codes "admin.failedToLoadEmployees"));
  is_loading = false;
}

-- Sends a request from a handler, with the message of the form cleared
unfoldable pub send : Request → EmployeesSection → EmployeesSection × Option Job
send request p = (
  record p { form_message = none },
  some (record { request = request; shown = p.show_terminated }),
)

-- `handleCreate` and `handleUpdate`
unfoldable pub handle_create : CreateForm → EmployeesSection → EmployeesSection × Option Job
unfolding send
handle_create f p = send (create (create_body f)) p

unfoldable pub handle_update : UpdateForm → Text → EmployeesSection → EmployeesSection × Option Job
unfolding send
handle_update f id p = send (update id (update_body f)) p

-- `currentEmpId && currentEmpId === emp.emp_id`
unfoldable pub is_self : Viewer → Employee → Bool
is_self v emp = truthy? v.current_emp_id && text_eq? v.current_emp_id (some emp.emp_id)

-- `handleTerminate`, `handleReactivate` and `handleDelete`, with what the user answers when asked
unfoldable pub handle_terminate :
    Viewer → Bool → Employee → EmployeesSection → EmployeesSection × Option Job
unfolding is_self send
handle_terminate v confirmed emp p =
    let told = record p {
      form_message = some (failure (said (codes "admin.cannotTerminateSelf") []));
    } in
    if is_self v emp
    then (told, none)
    else if confirmed
    then send (terminate emp.emp_id) p
    else (p, none)

unfoldable pub handle_reactivate :
    Bool → Employee → EmployeesSection → EmployeesSection × Option Job
unfolding send
handle_reactivate confirmed emp p = if confirmed then send (reactivate emp.emp_id) p else (p, none)

unfoldable pub handle_delete :
    Viewer → Bool → Employee → EmployeesSection → EmployeesSection × Option Job
unfolding is_self send
handle_delete v confirmed emp p =
    let told = record p {
      form_message = some (failure (said (codes "admin.cannotDeleteSelf") []));
    } in
    if is_self v emp
    then (told, none)
    else if confirmed
    then send (delete emp.emp_id) p
    else (p, none)

-- A handler's request that succeeded: its message, the form that it closes, and the list again
unfoldable pub succeeded : Text → Text → EmployeesSection → EmployeesSection
succeeded key id p = record p {
  form_message = some (success (said key ((codes "empId", id) ∷ [])));
}

unfoldable pub request_done : Request → Bool → EmployeesSection → EmployeesSection × Option Job
unfolding fetch_employees succeeded
request_done (get_employees with_terminated) shown p = (p, none)
request_done (create body) shown p = fetch_employees shown (record p {
  form_message = some (success (said (codes "admin.employeeCreated") []));
  show_create_form = false;
})
request_done (update id body) shown p =
    fetch_employees shown
      (record (succeeded (codes "admin.employeeUpdated") id p) { editing_emp_id = none })
request_done (terminate id) shown p =
    fetch_employees shown (succeeded (codes "admin.employeeTerminated") id p)
request_done (reactivate id) shown p =
    fetch_employees shown (succeeded (codes "admin.employeeReactivated") id p)
request_done (delete id) shown p =
    fetch_employees shown (succeeded (codes "admin.employeeDeleted") id p)

-- A request that failed
unfoldable pub fail_with : Note → EmployeesSection → EmployeesSection
fail_with note p = record p { form_message = some (failure note) }

unfoldable pub request_refused : Request → Thrown → EmployeesSection → EmployeesSection
unfolding employees_refused fail_with
request_refused (get_employees with_terminated) err p = employees_refused err p
request_refused (create body) err p = fail_with (error_message err (codes "admin.failedToCreate")) p
request_refused (update id body) err p =
    fail_with (error_message err (codes "admin.failedToUpdate")) p
request_refused (terminate id) err p =
    fail_with (message_or err (codes "admin.failedToTerminate")) p
request_refused (reactivate id) err p =
    fail_with (message_or err (codes "admin.failedToReactivate")) p
request_refused (delete id) err p = fail_with (message_or err (codes "admin.failedToDelete")) p
