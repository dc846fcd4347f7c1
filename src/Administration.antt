-- ===== src/Administration.antt =====
-- frontend/src/app/admin/page.tsx: the administration page. Its sections are the child modules; the
-- tabs for ranks and leave types and the two switches stand in files of their own (Admin).
pub mod Departments
pub mod Employees
pub mod Settings
pub mod Location
pub mod Calendars
use pwa_attendance_record_sy.Prelude.{
  ℕ, Bool, true, false, ◌&&◌, List, [], ◌∷◌, ◌++◌, Option, none, some, leb, or_else, field_of,
  is_some, if◌then◌else◌,
}
use pwa_attendance_record_sy.Text.{Text, codes}
use pwa_attendance_record_sy.Text.Dict
use pwa_attendance_record_sy.Api.Values.{Json, text, truthy_json}
use pwa_attendance_record_sy.Messages.{Note, said, raw, Thrown, api_error, message_or}
use pwa_attendance_record_sy.Types.{Role, employee, manager, hr, admin, AuthUser}

-- `ROLE_LEVELS`
unfoldable pub role_level : Role → ℕ
role_level employee = 0
role_level manager = 1
role_level hr = 2
role_level admin = 3

-- `hasMinimumRole`
unfoldable pub has_minimum_role : Role → Role → Bool
unfolding role_level
has_minimum_role user_role required_role = leb (role_level required_role) (role_level user_role)

-- The user of the session, as the page reads it: no user counts as an employee without an ID.
pub record Viewer : Type 0 where
  pub user_role : Role
  pub current_emp_id : Option Text

unfoldable pub viewer_of : Option AuthUser → Viewer
viewer_of user = record {
  user_role = or_else (field_of (λ (u : AuthUser). u.role) user) employee;
  current_emp_id = field_of (λ (u : AuthUser). u.emp_id) user;
}

unfoldable pub can_access_hr : Viewer → Bool
unfolding has_minimum_role
can_access_hr v = has_minimum_role v.user_role hr

unfoldable pub can_access_admin : Viewer → Bool
unfolding has_minimum_role
can_access_admin v = has_minimum_role v.user_role admin

pub data Section : Type 0 where
  access_denied : Section
  departments employees ranks org_scoping override_lock leave_types office_location : Section
  grace_period calendar_status system_config : Section

-- The sections that the page shows
unfoldable pub sections : Viewer → List Section
unfolding can_access_hr can_access_admin
sections v =
    if can_access_hr v
    then departments
      ∷ employees
      ∷ ranks
      ∷ org_scoping
      ∷ override_lock
      ∷ leave_types
      ∷ office_location
      ∷ grace_period
      ∷ calendar_status
      ∷ (if can_access_admin v then system_config ∷ [] else [])
    else access_denied ∷ []

-- `ERROR_CODE_KEYS`, of a code that is a text
unfoldable pub error_code_key : Json → Option Text
error_code_key (text code) = Dict.get code (
    (codes "reports_to_self", codes "admin.errReportsToSelf")
    ∷ (codes "reports_to_not_found", codes "admin.errReportsToNotFound")
    ∷ (codes "reports_to_cycle", codes "admin.errReportsToCycle")
    ∷ [])
error_code_key _ = none

-- `errorMessage`
unfoldable pub error_message : Thrown → Text → Note
unfolding message_or error_code_key
error_message (api_error (some code) message) fallback =
    elim (if truthy_json code then error_code_key code else none) [
      | some key ↦ said key []
      | none ↦ raw message
    ]
error_message err fallback = message_or err fallback
