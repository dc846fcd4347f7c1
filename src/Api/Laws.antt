-- ===== src/Api/Laws.antt =====
-- What a response becomes (frontend/src/lib/api.ts).
use pwa_attendance_record_sy.Prelude.{
  ℕ, ◌≡◌, refl, ◌↔◌, false, Option, none, some, arith, maybe_field,
}
use pwa_attendance_record_sy.Text.{Text, codes}
use pwa_attendance_record_sy.Api.Values.{Json, member}
use pwa_attendance_record_sy.Api.{
  ApiError, Response, failed, is_ok, error_of, error_of_detail, request,
}

status_of_detail : (status : ℕ) (d : Option Json) → (error_of_detail status d).status ≡ status
unfolding error_of_detail
status_of_detail status none = refl
status_of_detail status (some d) = ground arith

error_of-status : (r : Response) → (error_of r).status ≡ r.status
unfolding error_of
error_of-status r = status_of_detail r.status (maybe_field (member (codes "detail")) r.json)

-- A request fails exactly if the status of its response is not one of 200 to 299, and the error
-- has that status.
pub request-failed_iff :
    (r : Response)
    → ((e : ApiError) × (request r ≡ failed e) × (e.status ≡ r.status)) ↔ (is_ok r ≡ false)
unfolding request
request-failed_iff r =
    (λ (e, fails, s). ground arith, λ h. (error_of r, rw h refl, error_of-status r))

code_of_detail :
    (status : ℕ) (detail : Option Json) (c : Json)
    → (error_of_detail status detail).code ≡ some c
    → (d : Json) × (detail ≡ some d)
      × (member (codes "code") d ≡ some c)
      × ((error_of_detail status detail).raw ≡ some d)
unfolding error_of_detail
code_of_detail status none c h = absurd (ground arith)
code_of_detail status (some d) c h = (d, refl, ground arith, ground arith)

maybe_field-some :
    (k : Text) (json : Option Json) (d : Json)
    → maybe_field (member k) json ≡ some d
    → (body : Json) × (json ≡ some body) × (member k body ≡ some d)
maybe_field-some k none d h = absurd (ground arith)
maybe_field-some k (some body) d h = (body, refl, h)

-- An error with a code was sent by the service as the structured `detail` of its answer, has that
-- detail's code, and carries the detail whole.
pub error_of-code :
    (r : Response) (c : Json)
    → (error_of r).code ≡ some c
    → (body : Json) × (d : Json) × (r.json ≡ some body)
      × (member (codes "detail") body ≡ some d)
      × (member (codes "code") d ≡ some c)
      × ((error_of r).raw ≡ some d)
unfolding error_of
error_of-code r c h =
    let (d, found, code, raw) =
      code_of_detail r.status (maybe_field (member (codes "detail")) r.json) c h in
    let (body, json, detail) = maybe_field-some (codes "detail") r.json d found in
    (body, d, json, detail, code, raw)
