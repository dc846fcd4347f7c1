-- ===== src/I18n/Switcher.antt =====
-- The button that switches the language (frontend/src/components/LanguageSwitcher.tsx).
use pwa_attendance_record_sy.Prelude.{◌≡◌, refl, ◌∙◌}
use pwa_attendance_record_sy.Text.{Text, codes}
use pwa_attendance_record_sy.I18n.{Locale, en, zh, I18nState, set_locale, restore}
use pwa_attendance_record_sy.I18n.Laws.{restore-set_locale}

-- `nextLocale`
unfoldable pub next_locale : Locale → Locale
next_locale en = zh
next_locale zh = en

-- `LOCALE_LABELS[nextLocale]`, the text of the button
unfoldable pub switcher_label : I18nState → Text
unfolding next_locale
switcher_label p = elim (next_locale p.locale) [ en ↦ codes "EN" | zh ↦ codes "中文" ]

unfoldable pub switcher_click : I18nState → I18nState
unfolding next_locale
switcher_click p = set_locale (next_locale p.locale) p

next_locale-next_locale : (l : Locale) → next_locale (next_locale l) ≡ l
unfolding next_locale
next_locale-next_locale en = refl
next_locale-next_locale zh = refl

-- Two clicks bring the language back, and a later start finds it.
switcher_click-twice :
    (language : Text) (p : I18nState)
    → ((switcher_click (switcher_click p)).locale ≡ p.locale)
      × ((restore language (switcher_click (switcher_click p))).locale ≡ p.locale)
unfolding switcher_click set_locale
switcher_click-twice language p =
    let back = next_locale-next_locale p.locale in
    let q = switcher_click (switcher_click p) in
    let found =
      restore-set_locale (next_locale (next_locale p.locale)) (next_locale p.locale) language p q
        refl in
    (back, found.0 ∙ back)
