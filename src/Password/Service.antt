-- ===== src/Password/Service.antt =====
-- What the service makes of a change of password (backend/app/schemas/auth.py,
-- backend/app/utils/password.py, backend/app/services/employee_service.py,
-- backend/app/routers/auth.py, backend/app/middleware/rate_limiter.py) by a user whose token it
-- takes, for texts without surrogates, whose code units are their characters.
use pwa_attendance_record_sy.Prelude.{
  ℕ, Bool, not, ◌&&◌, [], Option, none, some, leb, any, length, if◌then◌else◌,
}
use pwa_attendance_record_sy.Text.{Text, codes, text_eq}
use pwa_attendance_record_sy.Api.{Response}
use pwa_attendance_record_sy.Api.Values.{Json, text, array, Items, object, member_is, no_member}

pub data Refusal : Type 0 where
  -- the schema's errors, which the framework answers with as a list; too many failed attempts; a
  -- wrong current password; the two policy violations
  invalid rate_limited invalid_credentials must_differ equals_emp_id : Refusal

-- `check_rate_limit`, of the recent failed attempts and the number that is allowed
unfoldable pub is_rate_limited : ℕ → ℕ → Bool
is_rate_limited recent max_attempts = leb max_attempts recent

-- `validate_password_strength`, where `is_digit` is `str.isdigit` of a character
unfoldable pub is_strong : (ℕ → Bool) → Text → Bool
is_strong is_digit new = leb 8 (length new) && leb (length new) 128 && any is_digit new

-- `change_password` of the service: whether the stored hash matches and the employee is active is an
-- argument.
unfoldable pub accept_change : Bool → Text → Text → Text → Option Refusal
accept_change known emp_id current new =
    if not known
    then some invalid_credentials
    else if text_eq new current
    then some must_differ
    else if text_eq new emp_id
    then some equals_emp_id
    else none

-- `change_password` of the router, for the recent failed attempts of the user at this address
unfoldable pub change_password : (ℕ → Bool) → ℕ → ℕ → Bool → Text → Text → Text → Option Refusal
unfolding is_strong is_rate_limited accept_change
change_password is_digit recent max_attempts known emp_id current new =
    if not (leb 1 (length current) && is_strong is_digit new)
    then some invalid
    else if is_rate_limited recent max_attempts
    then some rate_limited
    else accept_change known emp_id current new

-- An answer of status `status` with a detail
abbrev pub answer : ℕ → Json → Response
answer status detail = record {
  status = status;
  content_type = some (codes "application/json");
  json = some (object (member_is (codes "detail") detail no_member));
  text = [];
}

-- The answer to a refusal; the list of the framework's errors is an argument.
unfoldable pub response_of : Items → Refusal → Response
response_of errors invalid = answer 422 (array errors)
response_of errors rate_limited =
    answer 429 (text (codes "Too many login attempts. Please try again later."))
response_of errors invalid_credentials = answer 401 (text (codes "Invalid credentials"))
response_of errors must_differ =
    answer 422 (text (codes "new password must differ from current password"))
response_of errors equals_emp_id =
    answer 422 (text (codes "new password must not equal employee ID"))
