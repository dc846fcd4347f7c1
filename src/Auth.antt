-- ===== src/Auth.antt =====
-- frontend/src/lib/auth-context.tsx: who is logged in. The store of the browser is part of the
-- state; `JSON.parse(atob(part))` is a parameter, `none` where either throws.
pub mod Laws
pub mod Home
use pwa_attendance_record_sy.Prelude.{
  Bool, true, false, ◌&&◌, List, [], ◌∷◌, Option, none, some, is_some, if◌then◌else◌,
}
use pwa_attendance_record_sy.Text.{Text, codes, truthy, split}
use pwa_attendance_record_sy.Api.Values.{Json, member, truthy_json}

-- The user that a token names: both values as the token has them, with no test but for truth.
pub record TokenUser : Type 0 where
  pub emp_id : Json
  pub role : Json

pub record AuthState : Type 0 where
  pub stored : Option Text
  pub token : Option Text
  pub user : Option TokenUser
  pub is_loading : Bool

-- The state of a page that is loaded with a store
abbrev pub initial : Option Text → AuthState
initial stored = record { stored = stored; token = none; user = none; is_loading = true }

pub data Event : Type 0 where
  -- the effect at the start; the answers to `login` and `loginWithToken`; `logout`
  mounted log_out : Event
  logged_in logged_in_with : Text → Event

-- `payload.sub` and `payload.role`, both needed
unfoldable pub user_of : Option Json → Option Json → Option TokenUser
user_of (some sub) (some role) =
    if truthy_json sub && truthy_json role
    then some (record { emp_id = sub; role = role })
    else none
user_of _ _ = none

-- `isAuthenticated`
unfoldable pub is_authenticated : AuthState → Bool
is_authenticated p = is_some p.user

module _ (read_payload : Text → Option Json) where
  -- `decodeToken`, of the parts between the points; a payload that has no members gives none.
  unfoldable pub decode_parts : List Text → Option TokenUser
  decode_parts (header ∷ payload ∷ signature ∷ []) = elim (read_payload payload) [
    | none ↦ none
    | some v ↦ user_of (member (codes "sub") v) (member (codes "role") v)
  ]
  decode_parts _ = none

  unfoldable pub decode_token : Text → Option TokenUser
  decode_token token = decode_parts (split b'.' token)

  -- `setToken` and `setUser` for a token
  unfoldable pub with_token : Text → AuthState → AuthState
  with_token token p = record p { token = some token; user = decode_token token }

  -- The effect at the start
  unfoldable pub restore : AuthState → AuthState
  unfolding with_token
  restore p = elim p.stored [
    | none ↦ record p { is_loading = false }
    | some token ↦
        if truthy token
        then record (with_token token p) { is_loading = false }
        else record p { is_loading = false }
  ]

  -- The path that the router goes to, if any, beside the state
  unfoldable pub step : AuthState → Event → AuthState × Option Text
  unfolding with_token restore
  step p mounted = (restore p, none)
  step p (logged_in token) = (record (with_token token p) { stored = some token }, none)
  step p (logged_in_with token) = (record (with_token token p) { stored = some token }, none)
  step p log_out = (record p { stored = none; token = none; user = none }, some (codes "/login"))

  unfoldable pub run : AuthState → List Event → AuthState
  run p [] = p
  run p (e ∷ es) = run (step p e).0 es
