-- ===== src/I18n.antt =====
-- frontend/src/lib/i18n.tsx: the language of the client and its messages.
pub mod Switcher
pub mod Laws
use pwa_attendance_record_sy.Prelude.{
  ℕ, ◌+◌, Bool, true, false, not, ◌&&◌, ◌||◌, List, [], ◌∷◌, ◌++◌, Option, none, some, ◌==◌, leb,
  or_else, length, drop, map, if◌then◌else◌,
}
use pwa_attendance_record_sy.Text.{Text, codes, text_eq, split, starts_with}
use pwa_attendance_record_sy.Api.Values.{Json, null, text, member, is_object}

pub data Locale : Type 0 where
  en zh : Locale

unfoldable pub locale_text : Locale → Text
locale_text en = codes "en"
locale_text zh = codes "zh"

-- `s.toLowerCase()`, for the ASCII letters of which the tags of languages are made
unfoldable pub to_lower_case : Text → Text
to_lower_case s = map (λ c. if leb b'A' c && leb c b'Z' then c + 32 else c) s

-- `getStoredLocale`, of the stored tag and the browser's language
unfoldable pub get_stored_locale : Option Text → Text → Locale
get_stored_locale stored language =
    let tag = or_else stored [] in
    if text_eq tag (codes "en")
    then en
    else if text_eq tag (codes "zh")
    then zh
    else if starts_with (codes "zh") (to_lower_case language)
    then zh
    else en

-- The provider's state, with the browser's store and the language of the document
pub record I18nState : Type 0 where
  pub locale : Locale
  pub stored : Option Text
  pub document_lang : Option Text

-- The effect at the start
unfoldable pub restore : Text → I18nState → I18nState
restore language p = record p { locale = get_stored_locale p.stored language }

-- `setLocale`
unfoldable pub set_locale : Locale → I18nState → I18nState
set_locale l p = record p {
  locale = l;
  stored = some (locale_text l);
  document_lang = some (locale_text l);
}

-- The loop of `getNestedValue`; the messages have no arrays.
unfoldable pub nested : List Text → Option Json → Option Json
nested [] v = v
nested (k ∷ ks) none = none
nested (k ∷ ks) (some null) = none
nested (k ∷ ks) (some v) =
    let deeper = nested ks (member k v) in if is_object v then deeper else none

unfoldable pub get_nested_value : Json → Text → Option Text
get_nested_value obj path = elim (nested (split b'.' path) (some obj)) [
  | some (text s) ↦ some s
  | _ ↦ none
]

-- What `replace` makes of its replacement for a match between two parts of the text: $$, $&, $`
-- and $' are special.
unfoldable pub expand : Text → Text → Text → Text → Text
expand found front back [] = []
expand found front back (c ∷ []) = c ∷ []
expand found front back (c ∷ d ∷ r) =
    let rest = expand found front back r in
    let plain = c ∷ expand found front back (d ∷ r) in
    if not (c == b'$')
    then plain
    else if d == b'$'
    then b'$' ∷ rest
    else if d == b'&'
    then found ++ rest
    else if d == b'`'
    then front ++ rest
    else if d == b'\''
    then back ++ rest
    else plain

-- `s.replace(pattern, replacement)`, where `front` is what stands before the rest of the text
unfoldable pub replace_from : Text → Text → Text → Text → Text
unfolding starts_with expand
replace_from pattern replacement front [] =
    if starts_with pattern [] then expand pattern front [] replacement else []
replace_from pattern replacement front (c ∷ s) =
    let later = c ∷ replace_from pattern replacement (front ++ c ∷ []) s in
    let back = drop (length pattern) (c ∷ s) in
    if starts_with pattern (c ∷ s) then expand pattern front back replacement ++ back else later

unfoldable pub replace : Text → Text → Text → Text
replace s pattern replacement = replace_from pattern replacement [] s

-- `{key}`
unfoldable pub placeholder : Text → Text
placeholder key = b'{' ∷ (key ++ codes "}")

-- `t(key, params)`, with the values of the parameters as texts
unfoldable pub fill : Text → List (Text × Text) → Text
fill result [] = result
fill result ((k, v) ∷ params) = fill (replace result (placeholder k) v) params

unfoldable pub t : Json → Text → List (Text × Text) → Text
t messages key params = fill (or_else (get_nested_value messages key) key) params
