-- ===== src/Reports/Options.antt =====
-- The departments to choose from (frontend/src/app/reports/page.tsx): each one once, in order.
use mathlib.Core.List.{Permᴰ}
use mathlib.Core.List.Permᴰ as Perm
use pwa_attendance_record_sy.Prelude.{
  ◌≡◌, refl, ap, ◌∙◌, List, [], ◌∷◌, map, arith, any, if◌then◌else◌, Bool-cases, inl, inr,
}
use pwa_attendance_record_sy.Text.{Text, text_eq, text_lt, includes}
use pwa_attendance_record_sy.Text.Laws.{text_eq_iff}
use pwa_attendance_record_sy.Types.{Employee}
use pwa_attendance_record_sy.Admin.Names.{IsDistinct, IsDistinct-Perm, includes-Perm}

-- `[...new Set(xs)]`, up to the order, which is sorted away
unfoldable pub unique : List Text → List Text
unique [] = []
unique (x ∷ xs) = let rest = unique xs in if includes x xs then rest else x ∷ rest

-- `xs.sort()`
unfoldable pub insert_text : Text → List Text → List Text
insert_text x [] = x ∷ []
insert_text x (y ∷ ys) = let rest = insert_text x ys in if text_lt y x then y ∷ rest else x ∷ y ∷ ys

unfoldable pub sort_texts : List Text → List Text
sort_texts [] = []
sort_texts (x ∷ xs) = insert_text x (sort_texts xs)

-- `[...new Set(emps.map((e) => e.department))].sort()`
unfoldable pub departments_of : List Employee → List Text
departments_of es = sort_texts (unique (map (λ e. e.department) es))

insert_text-Perm : (x : Text) (ys : List Text) → Permᴰ (insert_text x ys) (x ∷ ys)
unfolding insert_text
insert_text-Perm x [] = Perm.refl (x ∷ [])
insert_text-Perm x (y ∷ ys) = elim (Bool-cases (text_lt y x)) [
  | inl e ↦ rw e (Perm.trans (Perm.cons refl (insert_text-Perm x ys)) (Perm.swap refl refl))
  | inr e ↦ rw e (Perm.refl (x ∷ y ∷ ys))
]

sort_texts-Perm : (xs : List Text) → Permᴰ (sort_texts xs) xs
unfolding sort_texts
sort_texts-Perm [] = Perm.nil
sort_texts-Perm (x ∷ xs) =
    Perm.trans (insert_text-Perm x (sort_texts xs)) (Perm.cons refl (sort_texts-Perm xs))

includes-unique : (d : Text) (xs : List Text) → includes d (unique xs) ≡ includes d xs
unfolding unique includes
includes-unique d [] = refl
includes-unique d (x ∷ xs) = elim (Bool-cases (text_eq d x)) [
  | inr e ↦ ground (arith, includes-unique d xs)
  | inl e ↦
      let same = ap (λ y. includes y xs) ((text_eq_iff d x).0 e) in
      ground (arith, includes-unique d xs, same)
]

unique-IsDistinct : (xs : List Text) → IsDistinct (unique xs)
unfolding unique
unique-IsDistinct [] = tt
unique-IsDistinct (x ∷ xs) = elim (Bool-cases (includes x xs)) [
  | inl e ↦ rw e (unique-IsDistinct xs)
  | inr e ↦ rw e (includes-unique x xs ∙ e, unique-IsDistinct xs)
]

includes-map :
    (d : Text) (es : List Employee)
    → includes d (map (λ (e : Employee). e.department) es) ≡ any (λ e. text_eq e.department d) es
unfolding includes
includes-map d [] = refl
includes-map d (e ∷ es) =
    ground (arith, text_eq_iff d e.department, text_eq_iff e.department d, includes-map d es)

-- The departments to choose from are those of the listed employees, each one once.
pub departments_of-IsDistinct :
    (es : List Employee) (d : Text)
    → IsDistinct (departments_of es)
      × (includes d (departments_of es) ≡ any (λ e. text_eq e.department d) es)
unfolding departments_of
departments_of-IsDistinct es d =
    let names = map (λ (e : Employee). e.department) es in
    (
      IsDistinct-Perm (unique names) (sort_texts (unique names))
          (Perm.symm (sort_texts-Perm (unique names))) (unique-IsDistinct names),
      includes-Perm d (sort_texts (unique names)) (unique names) (sort_texts-Perm (unique names))
          ∙ includes-unique d names
          ∙ includes-map d es,
    )
