-- ===== src/Tests/Session.antt =====
-- Export names, responses and logins at concrete inputs (frontend/src/lib).
use pwa_attendance_record_sy.Prelude.{
  ◌≡◌, refl, false, List, [], ◌∷◌, ◌++◌, Option, none, some, if◌then◌else◌,
}
use pwa_attendance_record_sy.Text.{
  Text, codes, text_eq, trim, trim_start, trim_end, is_space, split, join,
}
use pwa_attendance_record_sy.Export.{
  ExportParams, xlsx, is_invalid, replace_runs, strip_start, strip_end, sanitize, subject_parts,
  build_export_filename, format_text,
}
use pwa_attendance_record_sy.Export.Laws.{Without, build_export_filename-Without}
use pwa_attendance_record_sy.Api.Values.{
  Json, text, object, member_is, no_member, member, find_member, truthy_json, is_object,
}
use pwa_attendance_record_sy.Api.{Response, error_of, error_of_detail, or_default, get_auth_headers}
use pwa_attendance_record_sy.Auth.{
  TokenUser, initial, Event, mounted, log_out, logged_in, user_of, decode_parts, decode_token, step,
  run, is_authenticated,
}
use pwa_attendance_record_sy.Auth.Laws.{
  IsCoherent, run-get_auth_headers, IsLoggedOut, log_out-IsLoggedOut,
}

abbrev report : ExportParams
report = record {
  format = xlsx;
  start_date = codes "2026-07-01";
  end_date = codes "2026-07-31";
  emp_id = some (codes " EMP01 ");
  emp_name = some (codes "Ann / Lee: ");
  department = none;
}

report_name :
    build_export_filename report
    ≡ codes "attendance_report_EMP01_Ann-Lee_2026-07-01_2026-07-31.xlsx"
unfolding build_export_filename subject_parts sanitize replace_runs strip_start strip_end is_invalid
    is_space trim trim_start trim_end join format_text
report_name = refl

build_export_filename-Without_example : Without is_invalid (build_export_filename report)
unfolding is_invalid is_space
build_export_filename-Without_example = build_export_filename-Without report refl refl

-- The answer of the service to a submission that lacks reasons
abbrev reasons_missing : Json
reasons_missing = object (
    member_is (codes "code") (text (codes "late_reason_missing"))
      (member_is (codes "message") (text (codes "reasons missing")) no_member))

abbrev refusal : Response
refusal = record {
  status = 400;
  content_type = some (codes "application/json");
  json = some (object (member_is (codes "detail") reasons_missing no_member));
  text = [];
}

refusal_error : error_of refusal ≡ record {
  status = 400;
  detail = text (codes "reasons missing");
  code = some (text (codes "late_reason_missing"));
  raw = some reasons_missing;
}
unfolding error_of error_of_detail member find_member truthy_json is_object or_default text_eq
refusal_error = refl

abbrev payload : Json
payload = object (
    member_is (codes "sub") (text (codes "EMP01"))
      (member_is (codes "role") (text (codes "HR")) no_member))

-- A reader of payloads that knows one
abbrev read_payload : Text → Option Json
read_payload s = if text_eq s (codes "p1") then some payload else none

abbrev hr_user : TokenUser
hr_user = record { emp_id = text (codes "EMP01"); role = text (codes "HR") }

abbrev logins : List Event
logins = mounted ∷ log_out ∷ logged_in (codes "h.p1.s") ∷ []

run-get_auth_headers_example :
    let q = run read_payload (initial none) logins in
    (t : Text) × IsCoherent read_payload q hr_user t
    × (get_auth_headers q.stored ≡ (codes "Authorization", codes "Bearer " ++ t) ∷ [])
unfolding run step decode_token decode_parts user_of member find_member truthy_json split text_eq
run-get_auth_headers_example = run-get_auth_headers read_payload none logins hr_user refl

log_out-IsLoggedOut_example :
    let q = run read_payload (initial (some (codes "h.p1.s"))) (log_out ∷ mounted ∷ []) in
    IsLoggedOut read_payload q × (is_authenticated q ≡ false) × (get_auth_headers q.stored ≡ [])
log_out-IsLoggedOut_example =
    log_out-IsLoggedOut read_payload (initial (some (codes "h.p1.s"))) (mounted ∷ []) refl
