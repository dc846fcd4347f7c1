-- ===== src/Auth/Laws.antt =====
-- Who the page shows is who its requests are sent for (frontend/src/lib/auth-context.tsx with
-- frontend/src/lib/api.ts).
use pwa_attendance_record_sy.Prelude.{
  ◌≡◌, refl, sym, subst, ◌⊎◌, Bool, true, false, not, List, [], ◌∷◌, ◌++◌, Option, none, some,
  arith, Bool-cases, Option-cases, inl, inr, all,
}
use pwa_attendance_record_sy.Text.{Text, codes, truthy, split}
use pwa_attendance_record_sy.Api.Values.{Json}
use pwa_attendance_record_sy.Api.{get_auth_headers}
use pwa_attendance_record_sy.Auth.{
  TokenUser, AuthState, initial, Event, mounted, log_out, logged_in, logged_in_with, decode_token,
  decode_parts, with_token, restore, step, run, is_authenticated,
}

module _ (read_payload : Text → Option Json) where
  -- What holds of a state that shows a user.
  pub record IsCoherent (p : AuthState) (u : TokenUser) (t : Text) : Type 0 where
    pub in_store : p.stored ≡ some t
    pub in_state : p.token ≡ some t
    pub decoded : decode_token read_payload t ≡ some u

  abbrev Coherent : AuthState → Type 0
  Coherent p = (u : TokenUser) → p.user ≡ some u → (t : Text) × IsCoherent p u t

  Coherent-with :
      (t : Text) (p : AuthState)
      → p.stored ≡ some t
      → Coherent (record (with_token read_payload t p) { is_loading = false })
  unfolding with_token
  Coherent-with t p s u e = (t, record { in_store = s; in_state = refl; decoded = e })

  Coherent-loaded : (p : AuthState) → Coherent p → Coherent (record p { is_loading = false })
  Coherent-loaded p h u e =
      let (t, c) = h u e in
      (t, record { in_store = c.in_store; in_state = c.in_state; decoded = c.decoded })

  restore_cases :
      (p : AuthState)
      → (restore read_payload p ≡ record p { is_loading = false })
        ⊎ ((t : Text) × (p.stored ≡ some t)
            × (restore read_payload p
                ≡ record (with_token read_payload t p) { is_loading = false }))
  unfolding restore
  restore_cases p = elim (Option-cases p.stored) [
    | inl e ↦ inl (ground arith)
    | inr (t, e) ↦ elim (Bool-cases (truthy t)) [
      | inl f ↦ inr (t, e, ground arith)
      | inr f ↦ inl (ground arith)
    ]
  ]

  restore-Coherent : (p : AuthState) → Coherent p → Coherent (restore read_payload p)
  restore-Coherent p h = elim (restore_cases p) [
    | inl same ↦ subst Coherent (sym same) (Coherent-loaded p h)
    | inr (t, s, e) ↦ subst Coherent (sym e) (Coherent-with t p s)
  ]

  stored-Coherent :
      (t : Text) (p : AuthState)
      → Coherent (record (with_token read_payload t p) { stored = some t })
  unfolding with_token
  stored-Coherent t p u e = (t, record { in_store = refl; in_state = refl; decoded = e })

  logged_out-Coherent : (p : AuthState) → Coherent (step read_payload p log_out).0
  unfolding step
  logged_out-Coherent p u e = absurd (ground arith)

  step-Coherent : (p : AuthState) (e : Event) → Coherent p → Coherent (step read_payload p e).0
  unfolding step
  step-Coherent p mounted h = restore-Coherent p h
  step-Coherent p log_out h = logged_out-Coherent p
  step-Coherent p (logged_in token) h = stored-Coherent token p
  step-Coherent p (logged_in_with token) h = stored-Coherent token p

  run-Coherent : (p : AuthState) (es : List Event) → Coherent p → Coherent (run read_payload p es)
  unfolding run
  run-Coherent p [] h = h
  run-Coherent p (e ∷ es) h = run-Coherent (step read_payload p e).0 es (step-Coherent p e h)

  empty_token : decode_token read_payload [] ≡ none
  unfolding decode_token split decode_parts
  empty_token = refl

  bearer :
      (t : Text) (u : TokenUser)
      → decode_token read_payload t ≡ some u
      → get_auth_headers (some t) ≡ (codes "Authorization", codes "Bearer " ++ t) ∷ []
  unfolding get_auth_headers
  bearer [] u e = absurd (ground (arith, empty_token, e))
  bearer (c ∷ t) u e = refl

  -- From a page as it is loaded, and after any logins and logouts, a user is shown only with a token that names that user, and every request is then sent with that token: it is in the
  -- state and in the store, from which the requests take it.
  pub run-get_auth_headers :
      (stored : Option Text) (es : List Event) (u : TokenUser)
      → let q = run read_payload (initial stored) es in
        q.user ≡ some u
        → (t : Text) × IsCoherent q u t
          × (get_auth_headers q.stored ≡ (codes "Authorization", codes "Bearer " ++ t) ∷ [])
  unfolding get_auth_headers
  run-get_auth_headers stored es u e =
      let q = run read_payload (initial stored) es in
      let (t, c) = run-Coherent (initial stored) es (λ v f. absurd (ground arith)) u e in
      (t, c, rw c.in_store (bearer t u c.decoded))

  abbrev pub is_login : Event → Bool
  is_login (logged_in t) = true
  is_login (logged_in_with t) = true
  is_login _ = false

  -- Nobody is logged in, and nothing is stored.
  pub record IsLoggedOut (p : AuthState) : Type 0 where
    pub no_store : p.stored ≡ none
    pub no_token : p.token ≡ none
    pub no_user : p.user ≡ none

  step-IsLoggedOut :
      (p : AuthState) (e : Event)
      → is_login e ≡ false
      → IsLoggedOut p
      → IsLoggedOut (step read_payload p e).0
  unfolding step restore
  step-IsLoggedOut p mounted n h =
      let kept = record p { is_loading = false } in
      let same : restore read_payload p ≡ kept = ground (arith, h.no_store) in
      subst IsLoggedOut (sym same)
        (record { no_store = h.no_store; no_token = h.no_token; no_user = h.no_user })
  step-IsLoggedOut p log_out n h = record { no_store = refl; no_token = refl; no_user = refl }
  step-IsLoggedOut p (logged_in t) n h = absurd (ground arith)
  step-IsLoggedOut p (logged_in_with t) n h = absurd (ground arith)

  run-IsLoggedOut :
      (es : List Event) (p : AuthState)
      → all (λ e. not (is_login e)) es ≡ true
      → IsLoggedOut p
      → IsLoggedOut (run read_payload p es)
  unfolding run
  run-IsLoggedOut [] p n h = h
  run-IsLoggedOut (e ∷ es) p n h =
      run-IsLoggedOut es (step read_payload p e).0 (ground arith)
        (step-IsLoggedOut p e (ground arith) h)

  IsLoggedOut-at_once : (p : AuthState) → IsLoggedOut (step read_payload p log_out).0
  unfolding step
  IsLoggedOut-at_once p = record { no_store = refl; no_token = refl; no_user = refl }

  -- After a logout, and until a login, no user is shown, whatever else happens, a new start of the
  -- page included, and no request carries a token.
  pub log_out-IsLoggedOut :
      (p : AuthState) (es : List Event)
      → all (λ e. not (is_login e)) es ≡ true
      → let q = run read_payload p (log_out ∷ es) in
        IsLoggedOut q × (is_authenticated q ≡ false) × (get_auth_headers q.stored ≡ [])
  log_out-IsLoggedOut p es n =
      let q = run read_payload p (log_out ∷ es) in
      let out : IsLoggedOut q =
        unfold run in
        run-IsLoggedOut es (step read_payload p log_out).0 n (IsLoggedOut-at_once p) in
      (
        out,
        unfold is_authenticated in rw out.no_user refl,
        unfold get_auth_headers in rw out.no_store refl,
      )
