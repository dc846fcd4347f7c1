-- ===== src/Administration/Departments/Stored.antt =====
-- The department section together with the service, against lists that are edited one name at a
-- time (frontend/src/app/admin/page.tsx, backend/app/routers/system_config.py).
use pwa_attendance_record_sy.Prelude.{
  append_nil, All-if, ◌≡◌, refl, sym, ap, ◌∙◌, subst, Bool, true, false, not, ◌&&◌, ◌||◌, List, [],
  ◌∷◌, ◌++◌, arith, filter, All, if◌then◌else◌, Bool-cases, inl, inr,
}
use pwa_attendance_record_sy.Text.{Text, text_eq, includes, truthy}
use pwa_attendance_record_sy.Text.Strip.{strip, strip_idem}
use pwa_attendance_record_sy.Text.Laws.{text_eq_iff}
use pwa_attendance_record_sy.Admin.Names.{IsDistinct, IsDistinct-append_last, IsDistinct-filter}
use pwa_attendance_record_sy.Administration.Departments.{cleaned, first_of_each, set_departments}

-- A name as the service keeps it: stripped, and not empty.
abbrev pub IsKept : Text → Type 0
IsKept d = (strip d ≡ d) × (truthy d ≡ true)

-- A list as the service stores it: names that it keeps, each one once.
abbrev pub IsStored : List Text → Type 0
IsStored ds = All IsKept ds × IsDistinct ds

-- One edit of a stored list.
pub data Edited (ds : List Text) : List Text → Type 0 where
  unchanged : Edited ds ds
  added : (d : Text) → IsKept d → includes d ds ≡ false → Edited ds (ds ++ d ∷ [])
  removed : (d : Text) → Edited ds (filter (λ e. not (text_eq e d)) ds)

cleaned-append : (xs ys : List Text) → cleaned (xs ++ ys) ≡ cleaned xs ++ cleaned ys
unfolding cleaned
cleaned-append [] ys = refl
cleaned-append (x ∷ xs) ys = ground (arith, cleaned-append xs ys)

cleaned-IsKept : (ds : List Text) → All IsKept ds → cleaned ds ≡ ds
unfolding cleaned
cleaned-IsKept [] h = refl
cleaned-IsKept (d ∷ ds) ((s, t), h) = ground (arith, cleaned-IsKept ds h)

-- No name of the list is among those seen.
IsUnseen : List Text → List Text → Type 0
IsUnseen seen ds = All (λ d. includes d seen ≡ false) ds

IsUnseen-cons :
    (d : Text) (seen ds : List Text)
    → includes d ds ≡ false
    → IsUnseen seen ds
    → IsUnseen (d ∷ seen) ds
unfolding IsUnseen includes
IsUnseen-cons d seen [] n u = tt
IsUnseen-cons d seen (e ∷ ds) n (v, u) =
    (ground (arith, text_eq_iff d e, text_eq_iff e d), IsUnseen-cons d seen ds (ground arith) u)

IsUnseen-nil : (ds : List Text) → IsUnseen [] ds
unfolding IsUnseen includes
IsUnseen-nil [] = tt
IsUnseen-nil (d ∷ ds) = (refl, IsUnseen-nil ds)

first_of_each_lem :
    (seen ds : List Text) → IsDistinct ds → IsUnseen seen ds → first_of_each seen ds ≡ ds
unfolding first_of_each IsUnseen
first_of_each_lem seen [] n u = refl
first_of_each_lem seen (d ∷ ds) (n, m) (v, u) =
    rw v (ap (λ es. d ∷ es) (first_of_each_lem (d ∷ seen) ds m (IsUnseen-cons d seen ds n u)))

first_of_each-append_last :
    (seen ds : List Text) (x : Text)
    → IsDistinct ds
    → IsUnseen seen ds
    → first_of_each seen (ds ++ x ∷ [])
      ≡ ds ++ (if includes x seen || includes x ds then [] else x ∷ [])
unfolding first_of_each IsUnseen includes
first_of_each-append_last seen [] x n u = ground arith
first_of_each-append_last seen (d ∷ ds) x (n, m) (v, u) =
    let again = first_of_each-append_last (d ∷ seen) ds x m (IsUnseen-cons d seen ds n u) in
    ground (arith, again)

-- A stored list is stored as it is.
pub set_departments-IsStored : (ds : List Text) → IsStored ds → set_departments ds ≡ ds
unfolding set_departments
set_departments-IsStored ds (k, n) =
    rw (cleaned-IsKept ds k) (first_of_each_lem [] ds n (IsUnseen-nil ds))

append_unless {ℓ} :
    {A : Type ℓ} (b : Bool) (xs ys : List A)
    → xs ++ (if b then [] else ys) ≡ (if not b then xs ++ ys else xs)
append_unless true xs ys = append_nil xs
append_unless false xs ys = refl

first_of_each-append_new :
    (ds : List Text) (x : Text)
    → IsDistinct ds
    → first_of_each [] (ds ++ x ∷ []) ≡ (if not (includes x ds) then ds ++ x ∷ [] else ds)
unfolding includes
first_of_each-append_new ds x n =
    first_of_each-append_last [] ds x n (IsUnseen-nil ds)
    ∙ append_unless (includes x ds) ds (x ∷ [])

cleaned_one : (x : Text) → cleaned (x ∷ []) ≡ (if truthy (strip x) then strip x ∷ [] else [])
unfolding cleaned
cleaned_one x = ground arith

set_departments-append_last :
    (ds : List Text) (x : Text)
    → IsStored ds
    → set_departments (ds ++ x ∷ [])
      ≡ (if truthy (strip x) && not (includes (strip x) ds) then ds ++ strip x ∷ [] else ds)
unfolding set_departments
set_departments-append_last ds x (k, n) =
    rw (cleaned-append ds (x ∷ []), cleaned-IsKept ds k, cleaned_one x)
      (elim (Bool-cases (truthy (strip x))) [
        | inr e ↦ rw (e, append_nil ds) (first_of_each_lem [] ds n (IsUnseen-nil ds))
        | inl e ↦ rw e (first_of_each-append_new ds (strip x) n)
      ])

-- Storing a stored list with one more name, or without one, is an edit of it.
pub set_departments-Edited_add :
    (ds : List Text) (x : Text) → IsStored ds → Edited ds (set_departments (ds ++ x ∷ []))
set_departments-Edited_add ds x k =
    rw (set_departments-append_last ds x k)
      (elim (Bool-cases (truthy (strip x) && not (includes (strip x) ds))) [
        | inl e ↦ rw e (added (strip x) (strip_idem x, ground arith) (ground arith))
        | inr e ↦ rw e unchanged
      ])

All-filter {ℓ κ} :
    {A : Type ℓ} (P : A → Type κ) (p : A → Bool) (xs : List A) → All P xs → All P (filter p xs)
All-filter P p [] h = tt
All-filter P p (x ∷ xs) (h, hs) = All-if P (p x) x (filter p xs) (λ e. h) (All-filter P p xs hs)

IsStored-filter : (p : Text → Bool) (ds : List Text) → IsStored ds → IsStored (filter p ds)
IsStored-filter p ds (k, n) = (All-filter IsKept p ds k, IsDistinct-filter p ds n)

pub set_departments-Edited_remove :
    (ds : List Text) (x : Text)
    → IsStored ds
    → Edited ds (set_departments (filter (λ e. not (text_eq e x)) ds))
set_departments-Edited_remove ds x k =
    let kept = filter (λ e. not (text_eq e x)) ds in
    subst (λ es. Edited ds es)
      (sym (set_departments-IsStored kept (IsStored-filter (λ e. not (text_eq e x)) ds k)))
      (removed x)

All-append_last {ℓ κ} :
    {A : Type ℓ} (P : A → Type κ) (xs : List A) (x : A) → All P xs → P x → All P (xs ++ x ∷ [])
All-append_last P [] x h p = (p, tt)
All-append_last P (y ∷ xs) x (q, h) p = (q, All-append_last P xs x h p)

-- An edit of a stored list leaves a stored list.
pub Edited-IsStored : {ds es : List Text} → Edited ds es → IsStored ds → IsStored es
Edited-IsStored unchanged k = k
Edited-IsStored {ds = ds} (added d h n) (k, m) =
    (All-append_last IsKept ds d k h, IsDistinct-append_last d ds n m)
Edited-IsStored {ds = ds} (removed d) k = IsStored-filter (λ e. not (text_eq e d)) ds k
