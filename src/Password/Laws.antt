-- ===== src/Password/Laws.antt =====
-- The form and the service together: which changes are sent, and what a refusal shows
-- (frontend/src/components/ChangePasswordForm.tsx).
use pwa_attendance_record_sy.Prelude.{
  ℕ, ◌≡◌, ◌↔◌, refl, Bool, true, not, ◌&&◌, List, [], ◌∷◌, Option, none, some, any, arith, leb,
  if◌then◌else◌, Bool-cases, inl, inr,
}
use pwa_attendance_record_sy.Text.{codes, text_eq, contains, starts_with}
use pwa_attendance_record_sy.Text.Decimal.{is_digit}
use pwa_attendance_record_sy.Api.{
  Answer, failed, request, error_of, error_of_detail, is_ok, or_default,
}
use pwa_attendance_record_sy.Api.Values.{Items, truthy_json, is_object, member, find_member}
use pwa_attendance_record_sy.I18n.{to_lower_case}
use pwa_attendance_record_sy.Password.{
  Fields, Issue, FieldErrors, no_errors, PasswordForm, fields_of, change_password_schema, is_valid,
  change, handle_submit, on_issues, errors_of, submit, step,
}
use pwa_attendance_record_sy.Password.Service.{
  Refusal, invalid, rate_limited, invalid_credentials, must_differ, equals_emp_id, change_password,
  response_of,
}

on_issues-change :
    (found : List Issue) (p : PasswordForm)
    → ((on_issues found p).1 ≡ some (change p.current p.next)) ↔ (found ≡ [])
unfolding on_issues
on_issues-change [] p = (λ _. refl, λ _. refl)
on_issues-change (issue ∷ more) p = (λ h. ground (arith, h), λ h. ground (arith, h))

change_password_schema-is_valid :
    (p : PasswordForm) → change_password_schema (fields_of p) ≡ true → is_valid p ≡ true
unfolding change_password_schema is_valid fields_of
change_password_schema-is_valid p h = ground (arith, h)

-- The form sends a change exactly if no change is under way and every check of the schema passes,
-- where the parse finds no issue exactly if every check passes.
pub submit-change_iff :
    (issues : Fields → List Issue) (p : PasswordForm)
    → (issues (fields_of p) ≡ []) ↔ (change_password_schema (fields_of p) ≡ true)
    → ((step issues p submit).1 ≡ some (change p.current p.next))
      ↔ ((not p.submitting && change_password_schema (fields_of p)) ≡ true)
unfolding step handle_submit
submit-change_iff issues p h =
    let sends = on_issues-change (issues (fields_of p)) p in
    let valid = change_password_schema-is_valid p in
    elim (Bool-cases (is_valid p && not p.submitting)) [
      | inl e ↦
          rw e (λ s. ground (arith, e, h.0 (sends.0 s)), λ k. sends.1 (h.1 (ground (arith, k))))
      | inr e ↦ rw e (λ s. ground (arith, s), λ k. ground (arith, k, e, valid (ground (arith, k))))
    ]

any_mono :
    (p q : ℕ → Bool)
    → ((c : ℕ) → p c ≡ true → q c ≡ true)
    → (s : List ℕ) → any p s ≡ true
    → any q s ≡ true
any_mono p q f [] h = h
any_mono p q f (c ∷ s) h = elim (Bool-cases (p c)) [
  | inl e ↦ ground (arith, f c e)
  | inr e ↦ ground (arith, h, e, any_mono p q f s (ground (arith, h, e)))
]

-- What the service answers to a change that the form sends: that there were too many failed attempts,
-- that the current password is wrong, or nothing against it
abbrev pub refusal_of : ℕ → ℕ → Bool → Option Refusal
refusal_of recent max_attempts known =
    if leb max_attempts recent
    then some rate_limited
    else if known
    then none
    else some invalid_credentials

schema-change_password :
    (is_digit_char : ℕ → Bool) (recent max_attempts : ℕ) (known : Bool) (p : PasswordForm)
    → ((c : ℕ) → is_digit c ≡ true → is_digit_char c ≡ true)
    → change_password_schema (fields_of p) ≡ true
    → change_password is_digit_char recent max_attempts known p.emp_id p.current p.next
      ≡ refusal_of recent max_attempts known
unfolding change_password_schema fields_of change_password
schema-change_password is_digit_char recent max_attempts known p d h =
    ground (arith, h, any_mono is_digit is_digit_char d p.next)

-- A change that the form sends is refused by the service exactly if there were too many failed
-- attempts, and otherwise exactly if the current password is not the employee's: where the parse
-- finds no issue exactly if every check of the schema passes, and the service takes at least the
-- digits 0 to 9 for digits, for passwords without surrogates and a user whose token it takes.
pub submit-change_password :
    (issues : Fields → List Issue) (is_digit_char : ℕ → Bool) (recent max_attempts : ℕ)
    (known : Bool) (p : PasswordForm)
    → (issues (fields_of p) ≡ []) ↔ (change_password_schema (fields_of p) ≡ true)
    → ((c : ℕ) → is_digit c ≡ true → is_digit_char c ≡ true)
    → (step issues p submit).1 ≡ some (change p.current p.next)
    → change_password is_digit_char recent max_attempts known p.emp_id p.current p.next
      ≡ refusal_of recent max_attempts known
submit-change_password issues is_digit_char recent max_attempts known p h d s =
    schema-change_password is_digit_char recent max_attempts known p d
      (ground (arith, (submit-change_iff issues p h).0 s))

-- The errors that the form shows for a refusal that its request brings back
unfoldable pub shown : Answer → FieldErrors
shown (failed err) = errors_of err
shown _ = no_errors

-- The key that a refusal should show, and the field that shows it
unfoldable pub expected : Refusal → FieldErrors
expected invalid = record no_errors { new_password = some (codes "changePassword.errors.tooShort") }
expected rate_limited = record no_errors { form = some (codes "changePassword.errors.rateLimited") }
expected invalid_credentials = record no_errors {
  current_password = some (codes "changePassword.errors.wrongCurrent");
}
expected must_differ = record no_errors {
  new_password = some (codes "changePassword.errors.sameAsCurrent");
}
expected equals_emp_id = record no_errors {
  new_password = some (codes "changePassword.errors.sameAsEmpId");
}

-- What the form shows for each refusal of a change by a user whose token the service takes, through
-- the API client: too many attempts, a wrong current password, the two policy violations, and "too
-- short" for every error of the service's schema, whatever the framework's list of errors says.
pub shown-expected :
    (errors : Items) (r : Refusal) → shown (request (response_of errors r)) ≡ expected r
unfolding shown expected response_of request errors_of error_of is_ok to_lower_case contains
    starts_with truthy_json is_object or_default member error_of_detail find_member text_eq
shown-expected errors invalid = refl
shown-expected errors rate_limited = refl
shown-expected errors invalid_credentials = refl
shown-expected errors must_differ = refl
shown-expected errors equals_emp_id = refl
