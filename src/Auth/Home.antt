-- ===== src/Auth/Home.antt =====
-- Where the first page of the client leads (frontend/src/app/page.tsx), by the state of
-- frontend/src/lib/auth-context.tsx.
use pwa_attendance_record_sy.Prelude.{
  ◌≡◌, refl, true, Option, none, some, is_some, if◌then◌else◌, arith,
}
use pwa_attendance_record_sy.Text.{Text, codes, truthy}
use pwa_attendance_record_sy.Api.Values.{Json}
use pwa_attendance_record_sy.Auth.{
  AuthState, initial, mounted, log_out, is_authenticated, decode_token, restore, step,
}

-- The effect of `Home`: the path that replaces the page's, if any
unfoldable pub home_effect : AuthState → Option Text
home_effect p =
    if p.is_loading
    then none
    else some (if is_authenticated p then codes "/dashboard" else codes "/login")

module _ (read_payload : Text → Option Json) where
  -- The page waits for the store to be read; then a token that names a user leads to the dashboard,
  -- and a logout or a store without such a token to the login.
  home_effect-mounted :
      (token : Text)
      → truthy token ≡ true
      → (home_effect (initial (some token)) ≡ none)
        × (home_effect (step read_payload (initial (some token)) mounted).0
            ≡ some (
                if is_some (decode_token read_payload token)
                then codes "/dashboard"
                else codes "/login"))
        × (home_effect (step read_payload (initial none) mounted).0 ≡ some (codes "/login"))
  unfolding home_effect step restore is_authenticated
  home_effect-mounted token n = (refl, ground arith, refl)

  home_effect-log_out :
      (p : AuthState)
      → (home_effect (step read_payload p log_out).0)
        ≡ (if p.is_loading then none else (step read_payload p log_out).1)
  unfolding home_effect step is_authenticated
  home_effect-log_out p = refl
