-- ===== src/Hooks/WebAuthn.antt =====
-- frontend/src/hooks/useWebAuthn.ts: the state of the hook around its two chains of requests. What a
-- request or the browser's authenticator gives is an argument.
use pwa_attendance_record_sy.Prelude.{Bool, true, false, Option, none, some}
use pwa_attendance_record_sy.Text.{Text, codes}
use pwa_attendance_record_sy.Messages.{Thrown, api_error, plain_error, other}

pub record WebAuthnState : Type 0 where
  pub is_supported : Bool
  pub loading : Bool
  pub error : Option Text

-- What an awaited call gives
pub data Outcome {ℓ} (A : Type ℓ) : Type ℓ where
  returned : A → Outcome A
  threw : Thrown → Outcome A

-- One awaited call after the other: the first that throws ends the chain.
unfoldable pub and_then {ℓ κ} : {A : Type ℓ} {B : Type κ} → Outcome A → (A → Outcome B) → Outcome B
and_then (returned a) next = next a
and_then (threw err) next = threw err

-- `err instanceof Error ? err.message : fallback`
unfoldable pub text_or : Thrown → Text → Text
text_or (api_error code message) fallback = message
text_or (plain_error message) fallback = message
text_or other fallback = fallback

-- The first updates of `register` and of `authenticate`
unfoldable pub begin : WebAuthnState → WebAuthnState
begin s = record s { loading = true; error = none }

-- The chain of `register`: the options, the authenticator, the verification
unfoldable pub registration {ℓ κ μ} :
    {O : Type ℓ} {C : Type κ} {V : Type μ}
    → Outcome O
    → (O → Outcome C)
    → (C → Outcome V)
    → Outcome V
unfolding and_then
registration generate start verify = and_then (and_then generate start) verify

-- The end of `register`: whether it succeeded
unfoldable pub register_end {ℓ} : {V : Type ℓ} → Outcome V → WebAuthnState → WebAuthnState × Bool
unfolding text_or
register_end (returned v) s = (record s { loading = false }, true)
register_end (threw err) s =
    (record s { error = some (text_or err (codes "Registration failed")); loading = false }, false)

-- The end of `authenticate`, whose chain is the same: the token of the last answer
unfoldable pub authenticate_end : Outcome Text → WebAuthnState → WebAuthnState × Option Text
unfolding text_or
authenticate_end (returned token) s = (record s { loading = false }, some token)
authenticate_end (threw err) s =
    (record s { error = some (text_or err (codes "Authentication failed")); loading = false }, none)
