-- ===== src/Hooks/MyProfile.antt =====
-- frontend/src/hooks/useMyProfile.ts: the profile that is loaded once, for pages that ask for it.
use pwa_attendance_record_sy.Prelude.{Bool, true, false, Option, none, some, if◌then◌else◌}
use pwa_attendance_record_sy.Text.{Text, codes}
use pwa_attendance_record_sy.Types.{MyProfile}

-- The hook's profile, and whether the request of its effect is under way and not cancelled
pub record ProfileHook : Type 0 where
  pub profile : Option MyProfile
  pub is_live : Bool

-- The effect of a render with another `enabled`, after the cleanup of the one before: the path that
-- it asks for, if any
unfoldable pub profile_effect : Bool → ProfileHook → ProfileHook × Option Text
profile_effect enabled h =
    if enabled
    then (record h { is_live = true }, some (codes "/api/auth/me"))
    else (record h { is_live = false }, none)

-- The request has ended: `none` where it failed.
unfoldable pub profile_answered : Option MyProfile → ProfileHook → ProfileHook
profile_answered none h = record h { is_live = false }
profile_answered (some m) h = if h.is_live then record { profile = some m; is_live = false } else h
