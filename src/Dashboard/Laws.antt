-- ===== src/Dashboard/Laws.antt =====
-- The links and the fingerprint section of frontend/src/app/dashboard/page.tsx.
use pwa_attendance_record_sy.Prelude.{
  ◌≡◌, refl, Bool, true, false, [], ◌∷◌, Option, some, All, is_some,
}
use pwa_attendance_record_sy.Text.{codes}
use pwa_attendance_record_sy.Types.{
  Role, employee, manager, hr, admin, AuthUser, is_hr_role, is_manager_role,
}
use pwa_attendance_record_sy.Messages.{raw, Thrown}
use pwa_attendance_record_sy.Hooks.WebAuthn.{threw, text_or, begin, register_end}
use pwa_attendance_record_sy.Administration.{viewer_of, can_access_hr, has_minimum_role}
use pwa_attendance_record_sy.Reports.{can_access}
use pwa_attendance_record_sy.Team.{endpoint}
use pwa_attendance_record_sy.Dashboard.{
  Link, team, reports, admin_panel, role_of, links, failure, FingerprintSection, told_of,
  register_click, register_ended, step, run, handle_register, registered,
}

-- The page behind a link, as its own code admits a user
unfoldable pub admits : Option AuthUser → Link → Bool
admits user team = is_some (endpoint (role_of user))
admits user reports = can_access (role_of user)
admits user admin_panel = can_access_hr (viewer_of user)
admits user _ = true

links_of-admits :
    (user : Option AuthUser) (r : Role)
    → role_of user ≡ r
    → (viewer_of user).user_role ≡ r
    → All (λ l. admits user l ≡ true) (links r)
unfolding links admits endpoint can_access can_access_hr has_minimum_role is_hr_role is_manager_role
links_of-admits user employee e v = (refl, (refl, (refl, (refl, tt))))
links_of-admits user manager e v = rw e (refl, (refl, (refl, (refl, (refl, tt)))))
links_of-admits user hr e v = rw (e, v) (refl, (refl, (refl, (refl, (refl, (refl, (refl, tt)))))))
links_of-admits user admin e v =
    rw (e, v) (refl, (refl, (refl, (refl, (refl, (refl, (refl, tt)))))))

-- Every link that the dashboard shows leads to a page that admits the user.
pub links-admits : (user : Option AuthUser) → All (λ l. admits user l ≡ true) (links (role_of user))
links-admits user = links_of-admits user (role_of user) refl (unfold role_of viewer_of in refl)

-- Two attempts to register a fingerprint that fail, in a browser that supports it and with nothing
-- registered or under way before: the message after the second is the error of the first.
pub run-told :
    (p : FingerprintSection) (first second : Thrown)
    → p.webauthn.is_supported ≡ true
    → p.is_registered ≡ false
    → p.action_loading ≡ false
    → (run p (
        register_click
        ∷ register_ended (threw first)
        ∷ register_click
        ∷ register_ended (threw second)
        ∷ [])).message
      ≡ some (failure (raw (text_or first (codes "Registration failed"))))
unfolding run step handle_register registered begin register_end told_of
run-told p first second s r a = simp (s, r, a)
