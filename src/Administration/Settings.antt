-- ===== src/Administration/Settings.antt =====
-- frontend/src/app/admin/page.tsx, OfficeLocationSection, GracePeriodSection and
-- SystemConfigSection: the forms for the settings of the service.
pub mod Grace
use pwa_attendance_record_sy.Prelude.{
  ℕ, zero, suc, ◌+◌, ◌*◌, Bool, true, false, not, ◌&&◌, ◌||◌, List, [], ◌∷◌, Option, none, some,
  ltb, leb, ◌==◌, if◌then◌else◌,
}
use pwa_attendance_record_sy.Text.{Text, codes, trim_start, truthy}
use pwa_attendance_record_sy.Text.Decimal.{to_decimal, is_digit, number_from}
use pwa_attendance_record_sy.Api.Values.{Json}
use pwa_attendance_record_sy.Messages.{Note, said, Thrown, message_or}

-- A form of settings: `values` are its inputs.
pub record SettingsForm (A : Type 0) : Type 0 where
  pub values : A
  pub is_loading : Bool
  pub error : Option Note
  pub success : Option Note
  pub is_submitting : Bool

module _ {A : Type 0} where
  -- The first updates of both `handleSubmit`, the error of a check, and the rest of them
  unfoldable pub begin : SettingsForm A → SettingsForm A
  begin p = record p { error = none; success = none; is_submitting = true }

  unfoldable pub end_with_error : Note → SettingsForm A → SettingsForm A
  end_with_error note p = record p { error = some note; is_submitting = false }

  unfoldable pub end_with_success : Note → SettingsForm A → SettingsForm A
  end_with_success note p = record p { success = some note; is_submitting = false }

-- The digits at the front of a text
unfoldable pub leading_digits : Text → Text
unfolding is_digit
leading_digits [] = []
leading_digits (c ∷ s) = let rest = leading_digits s in if is_digit c then c ∷ rest else []

-- `parseInt(s, 10)` of the text behind a sign, which `negative` tells; `none` is NaN.
pub record SignedNumber : Type 0 where
  pub negative : Bool
  pub size : ℕ

unfoldable pub parse_digits : Bool → Text → Option SignedNumber
unfolding leading_digits number_from
parse_digits negative s =
    if truthy (leading_digits s)
    then some (record { negative = negative; size = number_from 0 (leading_digits s) })
    else none

unfoldable pub parse_signed : Text → Option SignedNumber
unfolding parse_digits
parse_signed [] = none
parse_signed (c ∷ s) =
    if c == b'-'
    then parse_digits true s
    else if c == b'+'
    then parse_digits false s
    else parse_digits false (c ∷ s)

unfoldable pub parse_int : Text → Option SignedNumber
unfolding parse_signed
parse_int s = parse_signed (trim_start s)

-- `value < 0 || value > 60`
unfoldable pub out_of_range : SignedNumber → Bool
out_of_range n = (n.negative && ltb 0 n.size) || (not n.negative && ltb 60 n.size)

-- `GracePeriodSection`, whose input is a text
unfoldable pub grace_loaded : ℕ → SettingsForm Text → SettingsForm Text
unfolding to_decimal
grace_loaded minutes p = record p { values = to_decimal minutes; is_loading = false }

unfoldable pub grace_not_loaded : Thrown → SettingsForm Text → SettingsForm Text
grace_not_loaded err p = record p {
  error = some (message_or err (codes "admin.failedToLoadGracePeriod"));
  is_loading = false;
}

-- `handleSubmit` of GracePeriodSection, for the value that the input has: what is sent, if anything
unfoldable pub check_grace : Option SignedNumber → SettingsForm Text → SettingsForm Text × Option ℕ
unfolding begin end_with_error out_of_range
check_grace none p = (end_with_error (said (codes "admin.gracePeriodRange") []) (begin p), none)
check_grace (some n) p =
    if out_of_range n
    then (end_with_error (said (codes "admin.gracePeriodRange") []) (begin p), none)
    else (begin p, some n.size)

unfoldable pub submit_grace : SettingsForm Text → SettingsForm Text × Option ℕ
unfolding check_grace parse_int
submit_grace p = check_grace (parse_int p.values) p

unfoldable pub grace_saved : SettingsForm Text → SettingsForm Text
unfolding end_with_success
grace_saved p = end_with_success (said (codes "admin.gracePeriodUpdated") []) p

unfoldable pub grace_refused : Thrown → SettingsForm Text → SettingsForm Text
unfolding end_with_error
grace_refused err p = end_with_error (message_or err (codes "admin.failedToUpdateGracePeriod")) p

-- `SystemConfigSection`
pub record SystemConfig : Type 0 where
  pub key : Text
  pub value : Json
  pub description : Option Text

pub record ConfigSection : Type 0 where
  pub configs : List SystemConfig
  pub is_loading : Bool
  pub error : Option Note

unfoldable pub configs_loaded : List SystemConfig → ConfigSection → ConfigSection
configs_loaded answer p = record p { configs = answer; is_loading = false }

unfoldable pub configs_refused : Thrown → ConfigSection → ConfigSection
configs_refused err p = record p {
  error = some (message_or err (codes "admin.failedToLoadConfig"));
  is_loading = false;
}
