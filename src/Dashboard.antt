-- ===== src/Dashboard.antt =====
-- frontend/src/app/dashboard/page.tsx: the day's punches, the fingerprint section and the links.
pub mod Laws
use pwa_attendance_record_sy.Prelude.{
  ℕ, Bool, true, false, not, ◌&&◌, List, [], ◌∷◌, ◌++◌, Option, none, some, or_else, field_of,
  length, if◌then◌else◌,
}
use pwa_attendance_record_sy.Text.{Text, codes}
use pwa_attendance_record_sy.Types.{Role, employee, WorkMode, AuthUser, is_hr_role, is_manager_role}
use pwa_attendance_record_sy.Messages.{Note, said, raw, Thrown, message_or}
use pwa_attendance_record_sy.Hooks.WebAuthn.{
  WebAuthnState, Outcome, returned, threw, begin, register_end,
}

-- What the page reads of an `AttendanceLog`
pub record TodayLog : Type 0 where
  pub timestamp : Text
  pub work_mode : WorkMode

pub record DashboardPage : Type 0 where
  pub logs : Option (List TodayLog)
  pub is_loading : Bool
  pub error : Option Note

-- The effect's `fetchToday`, ended
unfoldable pub today_loaded : List TodayLog → DashboardPage → DashboardPage
today_loaded answer p = record p { logs = some answer; is_loading = false }

unfoldable pub today_refused : Thrown → DashboardPage → DashboardPage
today_refused err p = record p {
  error = some (message_or err (codes "dashboard.failedToLoad"));
  is_loading = false;
}

unfoldable pub last {ℓ} : {A : Type ℓ} → List A → Option A
last [] = none
last (x ∷ []) = some x
last (x ∷ y ∷ xs) = last (y ∷ xs)

unfoldable pub total_punches : DashboardPage → ℕ
total_punches p = length (or_else p.logs [])

-- `latestWorkMode`, `none` for "N/A"
unfoldable pub latest_work_mode : DashboardPage → Option WorkMode
unfolding last
latest_work_mode p = field_of (λ (l : TodayLog). l.work_mode) (last (or_else p.logs []))

pub data Link : Type 0 where
  punch attendance monthly_override change_password team reports admin_panel : Link

unfoldable pub role_of : Option AuthUser → Role
role_of user = or_else (field_of (λ (u : AuthUser). u.role) user) employee

-- The links of the page, by role
unfoldable pub links : Role → List Link
links role =
    punch
    ∷ attendance
    ∷ monthly_override
    ∷ change_password
    ∷ ((if is_manager_role role then team ∷ [] else [])
        ++ ((if is_hr_role role then reports ∷ [] else [])
            ++ (if is_hr_role role then admin_panel ∷ [] else [])))

pub data FormMessage : Type 0 where
  success failure : Note → FormMessage

-- `FingerprintSection`, with the state of its hook. A handler under way is a closure of the render
-- in which its button was clicked; `seen_error` is the hook's error that it read then.
pub record FingerprintSection : Type 0 where
  pub webauthn : WebAuthnState
  pub is_registered : Bool
  pub action_loading : Bool
  pub message : Option FormMessage
  pub seen_error : Option Text

-- `handleRegister`, up to the chain of the hook
unfoldable pub handle_register : FingerprintSection → FingerprintSection
unfolding begin
handle_register p = record p {
  webauthn = begin p.webauthn;
  action_loading = true;
  message = none;
  seen_error = p.webauthn.error;
}

-- The rest of `handleRegister`: what it says is of the hook's error that its closure holds.
unfoldable pub told_of : Option Text → Note
told_of (some error) = raw error
told_of none = said (codes "dashboard.fingerprintRegisterFailed") []

unfoldable pub registered : Outcome Text → FingerprintSection → FingerprintSection
unfolding register_end told_of
registered outcome p =
    let r = register_end outcome p.webauthn in
    if r.1
    then record p {
      webauthn = r.0;
      is_registered = true;
      message = some (success (said (codes "dashboard.fingerprintRegistered") []));
      action_loading = false;
    }
    else record p {
      webauthn = r.0;
      message = some (failure (told_of p.seen_error));
      action_loading = false;
    }

-- `handleRemove`, and what its request brings back
unfoldable pub handle_remove : FingerprintSection → FingerprintSection
handle_remove p = record p { action_loading = true; message = none }

unfoldable pub removed : FingerprintSection → FingerprintSection
removed p = record p {
  is_registered = false;
  message = some (success (said (codes "dashboard.fingerprintRemoved") []));
  action_loading = false;
}

unfoldable pub remove_refused : Thrown → FingerprintSection → FingerprintSection
remove_refused err p = record p {
  message = some (failure (message_or err (codes "dashboard.fingerprintRemoveFailed")));
  action_loading = false;
}

pub data Event : Type 0 where
  status_known : Bool → Event
  register_click remove_click : Event
  register_ended : Outcome Text → Event
  remove_ended : Event
  remove_failed : Thrown → Event

-- The section is shown only where the browser supports it; one of the two buttons is, and it is
-- disabled while an action is under way.
unfoldable pub step : FingerprintSection → Event → FingerprintSection
step p (status_known registered_already) = record p { is_registered = registered_already }
step p register_click =
    if p.webauthn.is_supported && not p.is_registered && not p.action_loading
    then handle_register p
    else p
step p remove_click =
    if p.webauthn.is_supported && p.is_registered && not p.action_loading
    then handle_remove p
    else p
step p (register_ended outcome) = registered outcome p
step p remove_ended = removed p
step p (remove_failed err) = remove_refused err p

unfoldable pub run : FingerprintSection → List Event → FingerprintSection
run p [] = p
run p (e ∷ es) = run (step p e) es
