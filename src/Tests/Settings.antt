-- ===== src/Tests/Settings.antt =====
-- The switches, the grace period and the form for a password at concrete states
-- (frontend/src/components/admin, frontend/src/app/admin/page.tsx,
-- frontend/src/components/ChangePasswordForm.tsx).
use pwa_attendance_record_sy.Prelude.{
  ◌≡◌, ◌↔◌, refl, true, false, List, [], ◌∷◌, none, some, arith, if◌then◌else◌,
}
use pwa_attendance_record_sy.Text.{Text, codes, text_eq}
use pwa_attendance_record_sy.Text.Decimal.{is_digit}
use pwa_attendance_record_sy.Api.{request}
use pwa_attendance_record_sy.Api.Values.{no_item}
use pwa_attendance_record_sy.Messages.{other}
use pwa_attendance_record_sy.Admin.Toggle as Toggle
use pwa_attendance_record_sy.Admin.Toggle.Laws.{IsShown, run-IsShown}
use pwa_attendance_record_sy.Administration.Settings as Settings
use pwa_attendance_record_sy.Password.{
  Fields, Issue, PasswordForm, no_errors, fields_of, change_password_schema, change, submit, step,
  handle_submit, on_issues, is_valid,
}
use pwa_attendance_record_sy.Password.Service.{must_differ, change_password, response_of}
use pwa_attendance_record_sy.Password.Laws.{
  submit-change_password, refusal_of, shown, expected, shown-expected,
}

abbrev toggle_system : Toggle.System
toggle_system = record {
  toggle = record { enabled = true; is_loading = false; is_submitting = false; message = none };
  stored = true;
  pending = [];
}

abbrev toggle_moves : List Toggle.Move
toggle_moves =
    Toggle.clicked ∷ Toggle.clicked ∷ Toggle.served ∷ Toggle.clicked ∷ Toggle.refused other ∷ []

run-IsShown_example : IsShown (Toggle.run Toggle.override_lock toggle_system toggle_moves)
run-IsShown_example =
    run-IsShown Toggle.override_lock toggle_system toggle_moves
      (unfold IsShown in (refl, refl, refl))

abbrev grace_form : Text → Settings.SettingsForm Text
grace_form minutes = record {
  values = minutes;
  is_loading = false;
  error = none;
  success = none;
  is_submitting = false;
}

-- A parse that finds one issue, or none
abbrev issues : Fields → List Issue
issues d =
    if change_password_schema d
    then []
    else record { field = codes "newPassword"; message = codes "tooShort" } ∷ []

issues_iff : (d : Fields) → (issues d ≡ []) ↔ (change_password_schema d ≡ true)
issues_iff d = ground arith

abbrev password_form : PasswordForm
password_form = record {
  current = codes "old-secret1";
  next = codes "new-secret2";
  confirm = codes "new-secret2";
  emp_id = codes "EMP01";
  errors = no_errors;
  submitting = false;
}

password_sent :
    (step issues password_form submit).1 ≡ some (change (codes "old-secret1") (codes "new-secret2"))
unfolding step handle_submit on_issues is_valid fields_of change_password_schema text_eq is_digit
password_sent = refl

submit-change_password_example :
    change_password is_digit 2 5 false (codes "EMP01") (codes "old-secret1") (codes "new-secret2")
    ≡ refusal_of 2 5 false
submit-change_password_example =
    submit-change_password issues is_digit 2 5 false password_form
      (issues_iff (fields_of password_form)) (λ c h. h) password_sent

shown-expected_example : shown (request (response_of no_item must_differ)) ≡ expected must_differ
shown-expected_example = shown-expected no_item must_differ
