-- ===== src/Tests/Languages.antt =====
-- Languages and messages at concrete inputs (frontend/src/lib/i18n.tsx).
use pwa_attendance_record_sy.Prelude.{◌≡◌, refl, [], none, some}
use pwa_attendance_record_sy.Text.{codes, text_eq, starts_with, split, split_from}
use pwa_attendance_record_sy.Api.Values.{
  Json, text, object, member_is, no_member, member, find_member, is_object,
}
use pwa_attendance_record_sy.I18n.{
  en, zh, I18nState, get_stored_locale, to_lower_case, nested, get_nested_value, t, fill,
}

abbrev first_visit : I18nState
first_visit = record { locale = en; stored = none; document_lang = none }

browser_language : get_stored_locale none (codes "ZH-tw") ≡ zh
unfolding get_stored_locale to_lower_case text_eq starts_with
browser_language = refl

abbrev next_visit : I18nState
next_visit = record { locale = en; stored = some (codes "en"); document_lang = none }

abbrev messages : Json
messages = object (
    member_is (codes "reports")
      (object
        (member_is (codes "generateSuccess") (text (codes "Made {count} summaries")) no_member))
      no_member)

missing_key : t messages (codes "reports.none") [] ≡ codes "reports.none"
unfolding t fill get_nested_value nested split split_from member find_member is_object text_eq
missing_key = refl
