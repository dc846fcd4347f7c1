-- ===== src/Text/Dict.antt =====
-- An object used as a map from strings, as an association list: writing a key again replaces it.
use pwa_attendance_record_sy.Prelude.{
  ◌≡◌, refl, List, [], ◌∷◌, arith, Option, none, some, if◌then◌else◌,
}
use pwa_attendance_record_sy.Text.{Text, text_eq}
use pwa_attendance_record_sy.Text.Laws.{text_eq_iff}

module _ {ℓ} {A : Type ℓ} where
  -- `m[k]`
  unfoldable pub get : Text → List (Text × A) → Option A
  get k [] = none
  get k ((j, v) ∷ m) = let rest = get k m in if text_eq j k then some v else rest

  -- `m[k] = v`
  unfoldable pub put : Text → A → List (Text × A) → List (Text × A)
  put k v [] = (k, v) ∷ []
  put k v ((j, w) ∷ m) = let rest = put k v m in if text_eq j k then (k, v) ∷ m else (j, w) ∷ rest

  pub get-put :
      (k j : Text) (v : A) (m : List (Text × A))
      → get j (put k v m) ≡ (if text_eq k j then some v else get j m)
  unfolding get put
  get-put k j v [] = refl
  get-put k j v ((i, w) ∷ m) =
      ground (arith, text_eq_iff k j, text_eq_iff i k, text_eq_iff i j, get-put k j v m)
