-- ===== src/I18n/Laws.antt =====
-- The chosen language is kept, and a parameter takes the place of its placeholder
-- (frontend/src/lib/i18n.tsx).
use pwa_attendance_record_sy.Prelude.{
  ℕ, ◌≡◌, refl, sym, ◌∙◌, ap, true, not, [], ◌∷◌, ◌++◌, some, arith, ◌==◌, length, drop, all,
}
use pwa_attendance_record_sy.Text.{Text, codes, text_eq, starts_with}
use pwa_attendance_record_sy.Api.Values.{Json}
use pwa_attendance_record_sy.I18n.{
  Locale, en, zh, locale_text, get_stored_locale, I18nState, restore, set_locale, expand,
  replace_from, replace, placeholder, fill, t, get_nested_value,
}

get_stored_locale-locale_text :
    (l : Locale) (language : Text) → get_stored_locale (some (locale_text l)) language ≡ l
unfolding get_stored_locale locale_text text_eq
get_stored_locale-locale_text en language = refl
get_stored_locale-locale_text zh language = refl

-- A language that was chosen is the one that a later start of the client finds, whatever the
-- browser's language is and whatever was chosen before; store and document have its tag.
pub restore-set_locale :
    (l k : Locale) (language : Text) (p q : I18nState)
    → q.stored ≡ (set_locale l (set_locale k p)).stored
    → ((restore language q).locale ≡ l) × ((set_locale l (set_locale k p)).document_lang ≡ q.stored)
unfolding restore set_locale
restore-set_locale l k language p q h =
    (ap (λ s. get_stored_locale s language) h ∙ get_stored_locale-locale_text l language, sym h)

-- No character of the text is the given one.
abbrev pub Lacks : ℕ → Text → Type 0
Lacks c s = all (λ d. not (d == c)) s ≡ true

expand_plain : (found front back r : Text) → Lacks b'$' r → expand found front back r ≡ r
unfolding expand
expand_plain found front back [] h = refl
expand_plain found front back (c ∷ []) h = refl
expand_plain found front back (c ∷ d ∷ r) h = ground (arith, expand_plain found front back (d ∷ r))

starts_with-append : (s t : Text) → starts_with s (s ++ t) ≡ true
unfolding starts_with
starts_with-append [] t = refl
starts_with-append (c ∷ s) t = ground (arith, starts_with-append s t)

drop-append : (s t : Text) → drop (length s) (s ++ t) ≡ t
drop-append [] t = refl
drop-append (c ∷ s) t = drop-append s t

replace_from-placeholder :
    (key value front before after : Text)
    → Lacks b'{' before
    → Lacks b'$' value
    → replace_from (placeholder key) value front (before ++ (placeholder key ++ after))
      ≡ before ++ (value ++ after)
unfolding replace_from placeholder
replace_from-placeholder key value front [] after h k =
    let rest = key ++ codes "}" in
    rw
      (
        starts_with-append rest after,
        drop-append rest after,
        expand_plain (placeholder key) front after value k,
      )
      refl
replace_from-placeholder key value front (c ∷ before) after h k =
    ground
      (arith, replace_from-placeholder key value (front ++ c ∷ []) before after (ground arith) k)

-- A message with a placeholder for the one parameter given is shown with the value in its place:
-- for a value without a dollar sign, and where no brace stands before the placeholder.
pub t-placeholder :
    (messages : Json) (path key value before after : Text)
    → get_nested_value messages path ≡ some (before ++ (placeholder key ++ after))
    → Lacks b'{' before
    → Lacks b'$' value
    → t messages path ((key, value) ∷ []) ≡ before ++ (value ++ after)
unfolding t fill replace
t-placeholder messages path key value before after e h k =
    rw e (replace_from-placeholder key value [] before after h k)
