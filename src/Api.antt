-- ===== src/Api.antt =====
-- frontend/src/lib/api.ts: the requests of the client, and what it makes of a response.
pub mod Values
pub mod Laws
pub mod Wrappers
use pwa_attendance_record_sy.Prelude.{
  ℕ, Bool, true, false, not, ◌&&◌, ◌||◌, List, [], ◌∷◌, ◌++◌, Option, none, some, leb, or_else,
  maybe_field, if◌then◌else◌,
}
use pwa_attendance_record_sy.Text.{Text, codes, truthy, contains}
use pwa_attendance_record_sy.Text.Dict
use pwa_attendance_record_sy.Api.Values.{Json, null, text, member, truthy_json, is_object}

-- `ApiError`; an error's detail and code are whatever the service sent.
pub record ApiError : Type 0 where
  pub status : ℕ
  pub detail : Json
  pub code : Option Json
  pub raw : Option Json

-- `getAuthHeaders`, of the stored token
unfoldable pub get_auth_headers : Option Text → List (Text × Text)
get_auth_headers none = []
get_auth_headers (some token) =
    if truthy token then (codes "Authorization", codes "Bearer " ++ token) ∷ [] else []

pub data Method : Type 0 where
  get post put delete : Method

-- What is handed to `fetch`
pub record Call : Type 0 where
  pub path : Text
  pub method : Method
  pub headers : List (Text × Text)
  pub body : Option Json

-- `body ? JSON.stringify(body) : undefined`: the value whose text is sent
unfoldable pub body_of : Option Json → Option Json
body_of none = none
body_of (some b) = if truthy_json b then some b else none

-- The headers of a method: `post` and `put` name the type of their body.
unfoldable pub own_headers : Method → List (Text × Text)
own_headers post = (codes "Content-Type", codes "application/json") ∷ []
own_headers put = (codes "Content-Type", codes "application/json") ∷ []
own_headers _ = []

unfoldable pub own_body : Method → Option Json → Option Json
own_body post body = body_of body
own_body put body = body_of body
own_body _ body = none

-- `{ ...getAuthHeaders(), ...options.headers }`
unfoldable pub spread : List (Text × Text) → List (Text × Text) → List (Text × Text)
spread hs [] = hs
spread hs ((k, v) ∷ more) = spread (Dict.put k v hs) more

-- The call of `apiClient.get`, `.post`, `.put` or `.delete`, with the token in the store
unfoldable pub call : Text → Option Text → Method → Text → Option Json → Call
call base_url token method path body = record {
  path = base_url ++ path;
  method = method;
  headers = spread (get_auth_headers token) (own_headers method);
  body = own_body method body;
}

-- A response: its status, its type, its body as JSON (`none` if it is not JSON) and as a text.
pub record Response : Type 0 where
  pub status : ℕ
  pub content_type : Option Text
  pub json : Option Json
  pub text : Text

pub data Answer : Type 0 where
  failed : ApiError → Answer
  malformed : Answer
  value : Json → Answer
  plain : Text → Answer

-- `response.ok`
unfoldable pub is_ok : Response → Bool
is_ok r = leb 200 r.status && leb r.status 299

abbrev pub request_failed : Json
request_failed = text (codes "Request failed")

-- `v ?? d`: null and undefined give the default.
unfoldable pub or_default : Option Json → Json → Json
or_default none d = d
or_default (some null) d = d
or_default (some v) d = v

-- The error for a response that is not ok, of its `body.detail`
unfoldable pub error_of_detail : ℕ → Option Json → ApiError
error_of_detail status none = record {
  status = status;
  detail = request_failed;
  code = none;
  raw = none;
}
error_of_detail status (some d) =
    if truthy_json d && is_object d
    then record {
      status = status;
      detail = or_default (member (codes "message") d) request_failed;
      code = member (codes "code") d;
      raw = some d;
    }
    else record {
      status = status;
      detail = or_default (some d) request_failed;
      code = none;
      raw = none;
    }

-- The error for a response that is not ok. Reading `detail` of null throws, as a body that is not
-- JSON does, and both leave the defaults.
unfoldable pub error_of : Response → ApiError
error_of r = error_of_detail r.status (maybe_field (member (codes "detail")) r.json)

-- `request`, of the response to its call
unfoldable pub request : Response → Answer
request r =
    if not (is_ok r)
    then failed (error_of r)
    else if contains (codes "application/json") (or_else r.content_type [])
    then elim r.json [ none ↦ malformed | some v ↦ value v ]
    else plain r.text
