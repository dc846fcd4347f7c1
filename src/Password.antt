-- ===== src/Password.antt =====
-- frontend/src/components/ChangePasswordForm.tsx, with `changePasswordSchema` of
-- frontend/src/lib/validators.ts; and the service's side of a change: `ChangePasswordRequest` of
-- backend/app/schemas/auth.py, backend/app/utils/password.py, `change_password` of
-- backend/app/services/employee_service.py and of backend/app/routers/auth.py.
pub mod Service
pub mod Laws
use pwa_attendance_record_sy.Prelude.{
  ℕ, Bool, true, false, not, ◌&&◌, ◌||◌, List, [], ◌∷◌, ◌++◌, Option, none, some, ltb, leb, ◌==◌,
  any, length, or_maybe, if◌then◌else◌,
}
use pwa_attendance_record_sy.Text.{Text, codes, truthy, text_eq, contains}
use pwa_attendance_record_sy.Text.Decimal.{is_digit}
use pwa_attendance_record_sy.Api.{ApiError}
use pwa_attendance_record_sy.Api.Values.{Json, text}
use pwa_attendance_record_sy.I18n.{to_lower_case}

-- What the schema parses
pub record Fields : Type 0 where
  pub current_password : Text
  pub new_password : Text
  pub confirm_password : Text
  pub emp_id : Text

-- `changePasswordSchema`: every check of it passes.
unfoldable pub change_password_schema : Fields → Bool
unfolding is_digit
change_password_schema d =
    leb 1 (length d.current_password)
    && leb 8 (length d.new_password)
    && leb (length d.new_password) 128
    && any is_digit d.new_password
    && leb 1 (length d.confirm_password)
    && leb 1 (length d.emp_id)
    && text_eq d.new_password d.confirm_password
    && not (text_eq d.new_password d.current_password)
    && not (text_eq d.new_password d.emp_id)

-- An issue of a parse: the first part of its path and its message
pub record Issue : Type 0 where
  pub field : Text
  pub message : Text

-- Translation keys of the errors shown
pub record FieldErrors : Type 0 where
  pub current_password : Option Text
  pub new_password : Option Text
  pub confirm_password : Option Text
  pub form : Option Text

abbrev pub no_errors : FieldErrors
no_errors = record {
  current_password = none;
  new_password = none;
  confirm_password = none;
  form = none;
}

-- The loop of `validate`: a field keeps its first issue.
unfoldable pub add_issue : Issue → FieldErrors → FieldErrors
add_issue issue e =
    let key = codes "changePassword.errors." ++ issue.message in
    if text_eq issue.field (codes "currentPassword")
    then record e { current_password = or_maybe e.current_password (some key) }
    else if text_eq issue.field (codes "newPassword")
    then record e { new_password = or_maybe e.new_password (some key) }
    else if text_eq issue.field (codes "confirmPassword")
    then record e { confirm_password = or_maybe e.confirm_password (some key) }
    else e

unfoldable pub field_errors : FieldErrors → List Issue → FieldErrors
unfolding add_issue
field_errors e [] = e
field_errors e (issue ∷ issues) = field_errors (add_issue issue e) issues

pub record PasswordForm : Type 0 where
  pub current : Text
  pub next : Text
  pub confirm : Text
  pub emp_id : Text
  pub errors : FieldErrors
  pub submitting : Bool

unfoldable pub fields_of : PasswordForm → Fields
fields_of p = record {
  current_password = p.current;
  new_password = p.next;
  confirm_password = p.confirm;
  emp_id = p.emp_id;
}

-- `isValid`
unfoldable pub is_valid : PasswordForm → Bool
is_valid p = ltb 0 (length p.current) && leb 8 (length p.next) && ltb 0 (length p.confirm)

-- What the form has done: a request for a change, or the logout with the way to the login page
pub data Effect : Type 0 where
  change : Text → Text → Effect
  log_out_and_go : Effect

-- `handleSubmit` up to its request, for the issues of the parse
unfoldable pub on_issues : List Issue → PasswordForm → PasswordForm × Option Effect
unfolding field_errors
on_issues [] p =
    (record p { errors = no_errors; submitting = true }, some (change p.current p.next))
on_issues (issue ∷ more) p = (record p { errors = field_errors no_errors (issue ∷ more) }, none)

-- `handleSubmit`; the issues that a parse finds are a parameter.
unfoldable pub handle_submit : (Fields → List Issue) → PasswordForm → PasswordForm × Option Effect
handle_submit issues p = on_issues (issues (fields_of p)) p

-- The key for a refusal with status 422, of its detail in lower case
unfoldable pub key_of_detail : Text → Text
unfolding contains
key_of_detail msg =
    if contains (codes "employee id") msg
    then codes "changePassword.errors.sameAsEmpId"
    else if contains (codes "differ") msg
    then codes "changePassword.errors.sameAsCurrent"
    else if contains (codes "digit") msg
    then codes "changePassword.errors.missingDigit"
    else codes "changePassword.errors.tooShort"

-- The errors for a refusal. Only a text has `toLowerCase`; a detail of another kind throws within
-- the handler, which then shows nothing.
unfoldable pub errors_of_detail : Json → FieldErrors
unfolding key_of_detail to_lower_case
errors_of_detail (text detail) = record no_errors {
  new_password = some (key_of_detail (to_lower_case detail));
}
errors_of_detail _ = no_errors

unfoldable pub errors_of : ApiError → FieldErrors
unfolding errors_of_detail
errors_of err =
    if err.status == 401
    then record no_errors { current_password = some (codes "changePassword.errors.wrongCurrent") }
    else if err.status == 422
    then errors_of_detail err.detail
    else if err.status == 429
    then record no_errors { form = some (codes "changePassword.errors.rateLimited") }
    else record no_errors { form = some (codes "changePassword.errors.generic") }

pub data Event : Type 0 where
  type_current type_next type_confirm : Text → Event
  submit accepted : Event
  refused : ApiError → Event
  -- an error that is no `ApiError`
  failed : Event

-- The submit button is disabled for an invalid form, which keeps Enter from submitting it too.
unfoldable pub step : (Fields → List Issue) → PasswordForm → Event → PasswordForm × Option Effect
unfolding is_valid errors_of
step issues p (type_current s) = (record p { current = s }, none)
step issues p (type_next s) = (record p { next = s }, none)
step issues p (type_confirm s) = (record p { confirm = s }, none)
step issues p submit = if is_valid p && not p.submitting then handle_submit issues p else (p, none)
step issues p accepted = (record p { submitting = false }, some log_out_and_go)
step issues p (refused err) = (record p { errors = errors_of err; submitting = false }, none)
step issues p failed = (
  record p {
    errors = record no_errors { form = some (codes "changePassword.errors.generic") };
    submitting = false;
  },
  none,
)
