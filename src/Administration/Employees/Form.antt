-- ===== src/Administration/Employees/Form.antt =====
-- The edit form of frontend/src/app/admin/page.tsx (EmployeeManagementSection) from its opening to
-- what the service makes of it: `EmployeeUpdate` and `update_employee` of
-- backend/app/services/employee_service.py and backend/app/repositories/employee_repository.py.
use pwa_attendance_record_sy.Prelude.{
  ◌≡◌, refl, ap, ◌≢◌, Bool, true, false, not, ◌&&◌, List, [], ◌∷◌, Option, none, some, or_else, map,
  filter, arith, field_of, maybe_field, if◌then◌else◌,
}
use pwa_attendance_record_sy.Text.{Text, text_eq, includes, truthy, truthy?, or_null}
use pwa_attendance_record_sy.Text.Laws.{or_null-truthy}
use pwa_attendance_record_sy.Types.{Role, Employee, EmployeeUpdate}
use pwa_attendance_record_sy.Administration.Employees.{UpdateForm, update_body}

-- `updated.setattr` for each field that the body has: an absent field stays as it was. How the
-- service reads and prints a time is not part of it.
unfoldable pub apply_update : (Text → Text) → EmployeeUpdate → Employee → Employee
apply_update read_time u emp = record {
  emp_id = emp.emp_id;
  name = or_else u.name emp.name;
  department = or_else u.department emp.department;
  role = or_else u.role emp.role;
  shift_start_time = or_else (field_of read_time u.shift_start_time) emp.shift_start_time;
  shift_end_time = or_else (field_of read_time u.shift_end_time) emp.shift_end_time;
  terminated_at = emp.terminated_at;
  reports_to = or_else u.reports_to emp.reports_to;
  rank = or_else u.rank emp.rank;
}

-- A choice among options shows its default where that is an option, and what the browser picks of
-- the options where it is not.
unfoldable pub chosen : (List Text → Option Text) → Text → List Text → Option Text
chosen pick value options = if includes value options then some value else pick options

-- Those whom an employee can report to: the others who are not terminated
unfoldable pub managers_for : Employee → List Employee → List Text
managers_for emp employees =
    map (λ (e : Employee). e.emp_id)
      (filter (λ e. not (text_eq e.emp_id emp.emp_id) && not (truthy? e.terminated_at)) employees)

-- The edit form of an employee as it opens; only an administrator sees the role.
unfoldable pub open_form :
    (List Text → Option Text) → Bool → List Text → List Employee → List Text → Employee → UpdateForm
open_form pick is_admin departments employees ranks emp = record {
  name = emp.name;
  department = chosen pick emp.department departments;
  role = if is_admin then some emp.role else none;
  shift_start_time = emp.shift_start_time;
  shift_end_time = emp.shift_end_time;
  password = [];
  reports_to = chosen pick (or_else emp.reports_to []) ([] ∷ managers_for emp employees);
  rank = chosen pick (or_else emp.rank []) ([] ∷ ranks);
}

-- A nullable field's text is one of the options, and no empty text.
abbrev pub IsListed : Option Text → List Text → Type 0
IsListed none options = Unit
IsListed (some s) options = (truthy s ≡ true) × (includes s options ≡ true)

or_null_lem : (s : Text) → or_else (or_null s) s ≡ s
or_null_lem [] = refl
or_null_lem (c ∷ s) = refl

time_kept :
    (read_time : Text → Text) (s : Text)
    → read_time s ≡ s
    → or_else (field_of read_time (or_null s)) s ≡ s
time_kept read_time [] h = refl
time_kept read_time (c ∷ s) h = h

role_kept : (b : Bool) (r : Role) → or_else (if b then some r else none) r ≡ r
role_kept true r = refl
role_kept false r = refl

department_kept :
    (pick : List Text → Option Text) (s : Text) (options : List Text)
    → includes s options ≡ true
    → or_else (maybe_field or_null (chosen pick s options)) s ≡ s
unfolding chosen
department_kept pick s options h = rw h (or_null_lem s)

choice_kept :
    (pick : List Text → Option Text) (o : Option Text) (options : List Text)
    → IsListed o options
    → or_else (field_of or_null (chosen pick (or_else o []) ([] ∷ options))) o ≡ o
unfolding chosen includes
choice_kept pick none options h = refl
choice_kept pick (some s) options (t, l) = ground (arith, t, l, or_null-truthy s t)

-- Saving the edit form as it opened changes nothing, where the employee's department, manager and
-- rank are among the options and the service reads a time that it printed as it was.
pub apply_update-open_form :
    (pick : List Text → Option Text) (read_time : Text → Text) (is_admin : Bool)
    (departments : List Text) (employees : List Employee) (ranks : List Text) (emp : Employee)
    → includes emp.department departments ≡ true
    → IsListed emp.reports_to (managers_for emp employees)
    → IsListed emp.rank ranks
    → read_time emp.shift_start_time ≡ emp.shift_start_time
    → read_time emp.shift_end_time ≡ emp.shift_end_time
    → apply_update read_time
        (update_body (open_form pick is_admin departments employees ranks emp))
        emp
      ≡ emp
unfolding apply_update update_body open_form
apply_update-open_form pick read_time is_admin departments employees ranks emp d m r s e = simp (
  or_null_lem emp.name,
  department_kept pick emp.department departments d,
  role_kept is_admin emp.role,
  time_kept read_time emp.shift_start_time s,
  time_kept read_time emp.shift_end_time e,
  choice_kept pick emp.reports_to (managers_for emp employees) m,
  choice_kept pick emp.rank ranks r,
)

or_null_not : (s r : Text) → s ≢ r → or_null s ≢ some r
or_null_not [] r h = λ e. ground (arith, e)
or_null_not (c ∷ s) r h = λ e. h (ground (arith, e))

chosen_picked :
    (pick : List Text → Option Text) (r s : Text) (options : List Text)
    → truthy r ≡ true
    → includes r options ≡ false
    → pick ([] ∷ options) ≡ some s
    → chosen pick r ([] ∷ options) ≡ some s
unfolding chosen includes
chosen_picked pick [] s options t n e = ground (arith, t)
chosen_picked pick (c ∷ r) s options t n e = ground (arith, n, e)

includes-cons :
    (s r : Text) (options : List Text)
    → truthy r ≡ true
    → includes r options ≡ false
    → includes s ([] ∷ options) ≡ true
    → s ≢ r
unfolding includes
includes-cons s [] options t n h = ground (arith, t)
includes-cons s (c ∷ r) options t n h =
    λ e. ground (arith, ap (λ x. includes x ([] ∷ options)) e, h, n)

choice_lost :
    (pick : List Text → Option Text) (r s : Text) (options : List Text)
    → truthy r ≡ true
    → includes r options ≡ false
    → pick ([] ∷ options) ≡ some s
    → includes s ([] ∷ options) ≡ true
    → or_else (field_of or_null (chosen pick r ([] ∷ options))) (some r) ≢ some r
choice_lost pick r s options t n e h =
    rw (chosen_picked pick r s options t n e) (or_null_not s r (includes-cons s r options t n h))

-- An employee whose rank, a text that is not empty, is not among the ranks that the section has, as
-- before they are loaded, after they failed to load, or when the rank is no longer listed, loses
-- it: where the browser picks one of the options for a select without its default, saving the edit
-- form as it opened does not keep the rank.
pub apply_update-open_form_unlisted :
    (pick : List Text → Option Text) (read_time : Text → Text) (is_admin : Bool)
    (departments : List Text) (employees : List Employee) (ranks : List Text) (emp : Employee)
    (r s : Text)
    → emp.rank ≡ some r
    → truthy r ≡ true
    → includes r ranks ≡ false
    → pick ([] ∷ ranks) ≡ some s
    → includes s ([] ∷ ranks) ≡ true
    → (apply_update read_time
        (update_body (open_form pick is_admin departments employees ranks emp))
        emp).rank
      ≢ some r
unfolding apply_update update_body open_form
apply_update-open_form_unlisted pick read_time is_admin departments employees ranks emp r s e t n o
      h =
    rw e (choice_lost pick r s ranks t n o h)
