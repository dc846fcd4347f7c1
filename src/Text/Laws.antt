-- ===== src/Text/Laws.antt =====
-- Laws of the text operations: equality, order, trimming.
use pwa_attendance_record_sy.Prelude.{
  ◌≡◌, refl, ◌↔◌, inl, inr, true, false, [], ◌∷◌, arith, Option, none, some, all, Bool-cases,
}
use pwa_attendance_record_sy.Text.{
  Text, text_eq, text_eq?, is_space, trim_start, trim_end, trim, truthy, or_null,
}

pub text_eq_iff : (s t : Text) → (text_eq s t ≡ true) ↔ (s ≡ t)
unfolding text_eq
text_eq_iff [] [] = ground arith
text_eq_iff [] (d ∷ t) = ground arith
text_eq_iff (c ∷ s) [] = ground arith
text_eq_iff (c ∷ s) (d ∷ t) = ground (arith, text_eq_iff s t)

pub or_null-truthy : (s : Text) → truthy s ≡ true → or_null s ≡ some s
or_null-truthy [] h = cc
or_null-truthy (c ∷ s) h = refl

pub text_eq_refl : (s : Text) → text_eq s s ≡ true
text_eq_refl s = (text_eq_iff s s).1 refl

pub text_eq?_iff : (s t : Option Text) → (text_eq? s t ≡ true) ↔ (s ≡ t)
unfolding text_eq?
text_eq?_iff none none = ground arith
text_eq?_iff none (some t) = ground arith
text_eq?_iff (some s) none = ground arith
text_eq?_iff (some s) (some t) = ground (arith, text_eq_iff s t)

-- The text is white space alone.
abbrev pub IsBlank : Text → Type 0
IsBlank s = all is_space s ≡ true

trim_start-eq-nil_iff : (s : Text) → (trim_start s ≡ []) ↔ IsBlank s
unfolding trim_start
trim_start-eq-nil_iff [] = ground arith
trim_start-eq-nil_iff (c ∷ s) = ground (arith, trim_start-eq-nil_iff s)

trim_end-eq-nil_iff : (s : Text) → (trim_end s ≡ []) ↔ IsBlank s
unfolding trim_end
trim_end-eq-nil_iff [] = ground arith
trim_end-eq-nil_iff (c ∷ s) = ground (arith, trim_end-eq-nil_iff s)

trim_start-IsBlank : (s : Text) → IsBlank (trim_start s) → IsBlank s
unfolding trim_start
trim_start-IsBlank [] h = refl
trim_start-IsBlank (c ∷ s) h = ground (arith, trim_start-IsBlank s)

-- `trim` leaves nothing exactly of a blank text.
pub trim-eq-nil_iff : (s : Text) → (trim s ≡ []) ↔ IsBlank s
unfolding trim
trim-eq-nil_iff s = (
  λ h. trim_start-IsBlank s ((trim_end-eq-nil_iff (trim_start s)).0 h),
  λ h. rw ((trim_start-eq-nil_iff s).1 h) refl,
)

-- No white space at the front, or at the end.
abbrev pub HasBareStart : Text → Type 0
HasBareStart [] = Unit
HasBareStart (c ∷ s) = is_space c ≡ false

trim_start-HasBareStart : (s : Text) → HasBareStart (trim_start s)
unfolding trim_start
trim_start-HasBareStart [] = tt
trim_start-HasBareStart (c ∷ s) = elim (Bool-cases (is_space c)) [
  | inl e ↦ rw e (trim_start-HasBareStart s)
  | inr e ↦ rw e e
]

trim_start_of_HasBareStart : (s : Text) → HasBareStart s → trim_start s ≡ s
unfolding trim_start
trim_start_of_HasBareStart [] h = refl
trim_start_of_HasBareStart (c ∷ s) h = rw h

trim_end_idem : (s : Text) → trim_end (trim_end s) ≡ trim_end s
unfolding trim_end
trim_end_idem [] = refl
trim_end_idem (c ∷ s) = ground (arith, trim_end_idem s)

trim_end-HasBareStart : (s : Text) → HasBareStart s → HasBareStart (trim_end s)
unfolding trim_end
trim_end-HasBareStart [] h = tt
trim_end-HasBareStart (c ∷ s) h = rw h h

-- Trimming a second time changes nothing.
pub trim_idem : (s : Text) → trim (trim s) ≡ trim s
unfolding trim
trim_idem s =
    rw
      (trim_start_of_HasBareStart (trim_end (trim_start s))
        (trim_end-HasBareStart (trim_start s) (trim_start-HasBareStart s)))
      (trim_end_idem (trim_start s))
