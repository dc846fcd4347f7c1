-- ===== src/Admin/Names.antt =====
-- Lists of names without repetition, for the tabs of frontend/src/components/admin.
use mathlib.Core.List.{Permᴰ}
use mathlib.Core.List.Permᴰ as Perm
use pwa_attendance_record_sy.Prelude.{
  ℕ, zero, suc, ◌≡◌, refl, sym, ap, ◌∙◌, subst, length, Bool, true, false, ◌||◌, List, [], ◌∷◌,
  ◌++◌, none, some, arith, filter, get_elem?,
}
use pwa_attendance_record_sy.Text.{Text, text_eq, includes}
use pwa_attendance_record_sy.Text.Laws.{text_eq_iff}

-- What a tab tells the administrator: a translated message, or the text of an error.
pub data Message : Type 0 where
  saved duplicate : Message
  failed : Text → Message

-- No name is listed twice.
abbrev pub IsDistinct : List Text → Type 0
IsDistinct [] = Unit
IsDistinct (x ∷ xs) = (includes x xs ≡ false) × IsDistinct xs

-- `xs[i] = x`, for an index in range
abbrev pub set_elem {ℓ} : {A : Type ℓ} → ℕ → A → List A → List A
set_elem i x [] = []
set_elem zero x (y ∷ ys) = x ∷ ys
set_elem (suc i) x (y ∷ ys) = y ∷ set_elem i x ys

-- `[xs[i], xs[j]] = [xs[j], xs[i]]`, for indices in range
unfoldable pub exchange {ℓ} : {A : Type ℓ} → ℕ → ℕ → List A → List A
exchange i j xs = elim (get_elem? xs i) [
  | none ↦ xs
  | some a ↦ elim (get_elem? xs j) [ none ↦ xs | some b ↦ set_elem j a (set_elem i b xs) ]
]

pub includes-append :
    (x : Text) (xs ys : List Text) → includes x (xs ++ ys) ≡ (includes x xs || includes x ys)
unfolding includes
includes-append x [] ys = refl
includes-append x (y ∷ xs) ys = ground (arith, includes-append x xs ys)

pub IsDistinct-append_last :
    (x : Text) (xs : List Text) → includes x xs ≡ false → IsDistinct xs → IsDistinct (xs ++ x ∷ [])
unfolding includes
IsDistinct-append_last x [] n d = (refl, tt)
IsDistinct-append_last x (y ∷ xs) n (p, d) = (
  ground (arith, includes-append y xs (x ∷ []), text_eq_iff x y, text_eq_iff y x),
  IsDistinct-append_last x xs (ground arith) d,
)

includes-filter :
    (p : Text → Bool) (x : Text) (xs : List Text)
    → includes x xs ≡ false
    → includes x (filter p xs) ≡ false
unfolding includes
includes-filter p x [] n = refl
includes-filter p x (y ∷ xs) n = ground (arith, includes-filter p x xs)

IsDistinct-if :
    (keep : Bool) (x : Text) (rest : List Text)
    → includes x rest ≡ false
    → IsDistinct rest
    → IsDistinct (elim keep [ true ↦ x ∷ rest | false ↦ rest ])
IsDistinct-if true x rest n d = (n, d)
IsDistinct-if false x rest n d = d

pub IsDistinct-filter :
    (p : Text → Bool) (xs : List Text) → IsDistinct xs → IsDistinct (filter p xs)
IsDistinct-filter p [] d = tt
IsDistinct-filter p (x ∷ xs) (n, d) =
    IsDistinct-if (p x) x (filter p xs) (includes-filter p x xs n) (IsDistinct-filter p xs d)

pub includes-Perm : (x : Text) (xs ys : List Text) → Permᴰ xs ys → includes x xs ≡ includes x ys
unfolding includes
includes-Perm x _ _ Perm.nil = refl
includes-Perm x _ _ (Perm.cons {a} {b} {l₁} {l₂} e p) =
    ground (arith, ap (text_eq x) e, includes-Perm x l₁ l₂ p)
includes-Perm x _ _ (Perm.swap {a} {b} {a'} {b'} {l} e f) =
    ground (arith, ap (text_eq x) e, ap (text_eq x) f)
includes-Perm x _ _ (Perm.trans {l₁} {l₂} {l₃} p q) =
    includes-Perm x l₁ l₂ p ∙ includes-Perm x l₂ l₃ q

IsDistinct-swap :
    (a b : Text) (l : List Text)
    → includes a (b ∷ l) ≡ false
    → includes b l ≡ false
    → IsDistinct l
    → IsDistinct (b ∷ a ∷ l)
unfolding includes
IsDistinct-swap a b l n m d = (ground (arith, text_eq_iff a b, text_eq_iff b a), (ground arith, d))

-- Reordering keeps a list free of repetitions.
pub IsDistinct-Perm : (xs ys : List Text) → Permᴰ xs ys → IsDistinct xs → IsDistinct ys
IsDistinct-Perm _ _ Perm.nil d = tt
IsDistinct-Perm _ _ (Perm.cons {a} {b} {l₁} {l₂} e p) (n, d) = (
  subst (λ y. includes y l₂ ≡ false) e (sym (includes-Perm a l₁ l₂ p) ∙ n),
  IsDistinct-Perm l₁ l₂ p d,
)
IsDistinct-Perm _ _ (Perm.swap {a} {b} {a'} {b'} {l} e f) (n, rest) =
    subst (λ x. IsDistinct (x ∷ b' ∷ l)) f
      (subst (λ y. IsDistinct (b ∷ y ∷ l)) e (IsDistinct-swap a b l n rest.0 rest.1))
IsDistinct-Perm _ _ (Perm.trans {l₁} {l₂} {l₃} p q) d =
    IsDistinct-Perm l₂ l₃ q (IsDistinct-Perm l₁ l₂ p d)

exchange_cons {ℓ} :
    {A : Type ℓ} (i j : ℕ) (x : A) (xs : List A)
    → exchange (suc i) (suc j) (x ∷ xs) ≡ x ∷ exchange i j xs
unfolding exchange
exchange_cons i j x xs = ground arith

-- Exchanging neighbours reorders the list.
pub exchange-Perm {ℓ} : {A : Type ℓ} (i : ℕ) (xs : List A) → Permᴰ (exchange i (suc i) xs) xs
exchange-Perm i [] = unfold exchange in Perm.nil
exchange-Perm zero (x ∷ []) = unfold exchange in Perm.refl (x ∷ [])
exchange-Perm zero (x ∷ y ∷ xs) = unfold exchange in Perm.swap refl refl
exchange-Perm (suc i) (x ∷ xs) =
    subst (λ ys. Permᴰ ys (x ∷ xs)) (sym (exchange_cons i (suc i) x xs))
      (Perm.cons refl (exchange-Perm i xs))

-- The order of the two indices does not matter.
pub exchange_comm {ℓ} :
    {A : Type ℓ} (i : ℕ) (xs : List A) → exchange (suc i) i xs ≡ exchange i (suc i) xs
exchange_comm i [] = unfold exchange in refl
exchange_comm zero (x ∷ []) = unfold exchange in refl
exchange_comm zero (x ∷ y ∷ xs) = unfold exchange in refl
exchange_comm (suc i) (x ∷ xs) =
    exchange_cons (suc i) i x xs
    ∙ ap (λ ys. x ∷ ys) (exchange_comm i xs)
    ∙ sym (exchange_cons i (suc i) x xs)

-- Exchanging neighbours twice restores the list.
pub exchange-exchange {ℓ} :
    {A : Type ℓ} (i : ℕ) (xs : List A) → exchange i (suc i) (exchange i (suc i) xs) ≡ xs
exchange-exchange i [] = unfold exchange in refl
exchange-exchange zero (x ∷ []) = unfold exchange in refl
exchange-exchange zero (x ∷ y ∷ xs) = unfold exchange in refl
exchange-exchange (suc i) (x ∷ xs) =
    rw (exchange_cons i (suc i) x xs, exchange_cons i (suc i) x (exchange i (suc i) xs))
      (ap (λ ys. x ∷ ys) (exchange-exchange i xs))

pub length-exchange {ℓ} :
    {A : Type ℓ} (i : ℕ) (xs : List A) → length (exchange i (suc i) xs) ≡ length xs
length-exchange i [] = unfold exchange in refl
length-exchange zero (x ∷ []) = unfold exchange in refl
length-exchange zero (x ∷ y ∷ xs) = unfold exchange in refl
length-exchange (suc i) (x ∷ xs) =
    rw (exchange_cons i (suc i) x xs) (omega (arith, length-exchange i xs))
