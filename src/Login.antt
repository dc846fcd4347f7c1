-- ===== src/Login.antt =====
-- frontend/src/app/login/page.tsx and frontend/src/lib/lastEmpId.ts: the login page and the
-- employee ID that it remembers. The parse by `loginRequestSchema` is a parameter, the first issue
-- that it finds, if any.
pub mod Laws
use pwa_attendance_record_sy.Prelude.{
  Bool, true, false, not, ◌&&◌, ◌||◌, List, [], ◌∷◌, Option, none, some, or_else, if◌then◌else◌,
}
use pwa_attendance_record_sy.Text.{Text, truthy, trim}

-- An error that the page shows: a translated or fixed message, or the text of a failed request
pub data Message : Type 0 where
  emp_id_required password_required not_supported : Message
  refusal : Text → Message

-- The page, with the browser's store of the last employee ID; `storage` is false where reading
-- and writing the store throws.
pub record LoginPage : Type 0 where
  pub storage : Bool
  pub last_emp_id : Option Text
  pub fingerprint : Bool
  pub emp_id : Text
  pub password : Text
  pub error : Option Message
  pub is_submitting : Bool
  pub is_fingerprint_loading : Bool

pub data Request : Type 0 where
  login : Text → Text → Request
  authenticate : Text → Request
  go_to_dashboard : Request
  go_with_token : Text → Request

-- `getLastEmpId`
unfoldable pub get_last_emp_id : LoginPage → Text
get_last_emp_id p = if p.storage then or_else p.last_emp_id [] else []

-- `saveLastEmpId`
unfoldable pub save_last_emp_id : Text → LoginPage → LoginPage
save_last_emp_id emp_id p =
    if truthy (trim emp_id) && p.storage then record p { last_emp_id = some (trim emp_id) } else p

-- The effect at the start
unfoldable pub prefill : LoginPage → LoginPage
unfolding get_last_emp_id
prefill p = if truthy (get_last_emp_id p) then record p { emp_id = get_last_emp_id p } else p

-- `handleSubmit` up to its request, for a parse of the employee ID and the password
unfoldable pub handle_submit :
    (Text → Text → Option Message) → LoginPage → LoginPage × Option Request
handle_submit first_issue p = elim (first_issue p.emp_id p.password) [
  | some issue ↦ (record p { error = some issue }, none)
  | none ↦ (record p { error = none; is_submitting = true }, some (login p.emp_id p.password))
]

-- The login of this employee ID has been accepted, or refused.
unfoldable pub login_done : Text → LoginPage → LoginPage × Option Request
unfolding save_last_emp_id
login_done emp_id p =
    (record (save_last_emp_id emp_id p) { is_submitting = false }, some go_to_dashboard)

unfoldable pub login_refused : Text → LoginPage → LoginPage
login_refused text p = record p { error = some (refusal text); is_submitting = false }

-- `handleFingerprintLogin` up to its request
unfoldable pub handle_fingerprint_login : LoginPage → LoginPage × Option Request
handle_fingerprint_login p =
    if not p.fingerprint
    then (record p { error = some not_supported }, none)
    else if not (truthy (trim p.emp_id))
    then (record p { error = some emp_id_required }, none)
    else (record p { error = none; is_fingerprint_loading = true }, some (authenticate p.emp_id))

-- `authenticate` has ended for this employee ID, with a token or with null.
unfoldable pub fingerprint_done : Text → Option Text → LoginPage → LoginPage × Option Request
unfolding save_last_emp_id
fingerprint_done emp_id none p = (record p { is_fingerprint_loading = false }, none)
fingerprint_done emp_id (some token) p =
    if truthy token
    then (
      record (save_last_emp_id emp_id p) { is_fingerprint_loading = false },
      some (go_with_token token),
    )
    else (record p { is_fingerprint_loading = false }, none)

pub data Event : Type 0 where
  -- the effect at the start, and the user's; a button is disabled while its request is under way
  mounted submit_form fingerprint_click : Event
  type_emp_id type_password : Text → Event
  -- what the requests bring back, with the employee ID that they were sent for
  accepted : Text → Event
  refused : Text → Event
  authenticated : Text → Option Text → Event

module _ (first_issue : Text → Text → Option Message) where
  unfoldable pub step : LoginPage → Event → LoginPage × Option Request
  unfolding prefill login_refused
  step p mounted = (prefill p, none)
  step p submit_form = if p.is_submitting then (p, none) else handle_submit first_issue p
  step p fingerprint_click =
      if p.is_fingerprint_loading then (p, none) else handle_fingerprint_login p
  step p (type_emp_id t) = (record p { emp_id = t }, none)
  step p (type_password t) = (record p { password = t }, none)
  step p (accepted emp_id) = login_done emp_id p
  step p (refused text) = (login_refused text p, none)
  step p (authenticated emp_id token) = fingerprint_done emp_id token p
