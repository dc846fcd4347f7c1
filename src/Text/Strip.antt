-- ===== src/Text/Strip.antt =====
-- `str.strip` of the service's language, which takes other characters for white space than `trim`.
use pwa_attendance_record_sy.Prelude.{
  ℕ, ◌≡◌, refl, Bool, false, ◌&&◌, ◌||◌, not, [], ◌∷◌, arith, leb, ◌==◌, if◌then◌else◌, Bool-cases,
  inl, inr,
}
use pwa_attendance_record_sy.Text.{Text, truthy}

-- `str.isspace` of one character
unfoldable pub is_white : ℕ → Bool
is_white c =
    (leb 9 c && leb c 13)
    || (leb 0x1c c && leb c 0x20)
    || c == 0x85
    || c == 0xa0
    || c == 0x1680
    || (leb 0x2000 c && leb c 0x200a)
    || c == 0x2028
    || c == 0x2029
    || c == 0x202f
    || c == 0x205f
    || c == 0x3000

unfoldable pub lstrip : Text → Text
lstrip [] = []
lstrip (c ∷ s) = let rest = lstrip s in if is_white c then rest else c ∷ s

unfoldable pub rstrip : Text → Text
rstrip [] = []
rstrip (c ∷ s) = let rest = rstrip s in if is_white c && not (truthy rest) then [] else c ∷ rest

-- `s.strip()`
unfoldable pub strip : Text → Text
strip s = rstrip (lstrip s)

abbrev IsBareFront : Text → Type 0
IsBareFront [] = Unit
IsBareFront (c ∷ s) = is_white c ≡ false

lstrip-IsBareFront : (s : Text) → IsBareFront (lstrip s)
unfolding lstrip
lstrip-IsBareFront [] = tt
lstrip-IsBareFront (c ∷ s) = elim (Bool-cases (is_white c)) [
  | inl e ↦ rw e (lstrip-IsBareFront s)
  | inr e ↦ rw e e
]

lstrip_of_IsBareFront : (s : Text) → IsBareFront s → lstrip s ≡ s
unfolding lstrip
lstrip_of_IsBareFront [] h = refl
lstrip_of_IsBareFront (c ∷ s) h = rw h

rstrip_idem : (s : Text) → rstrip (rstrip s) ≡ rstrip s
unfolding rstrip
rstrip_idem [] = refl
rstrip_idem (c ∷ s) = ground (arith, rstrip_idem s)

rstrip-IsBareFront : (s : Text) → IsBareFront s → IsBareFront (rstrip s)
unfolding rstrip
rstrip-IsBareFront [] h = tt
rstrip-IsBareFront (c ∷ s) h = rw h h

-- Stripping a second time changes nothing.
pub strip_idem : (s : Text) → strip (strip s) ≡ strip s
unfolding strip
strip_idem s =
    rw
      (lstrip_of_IsBareFront (rstrip (lstrip s))
        (rstrip-IsBareFront (lstrip s) (lstrip-IsBareFront s)))
      (rstrip_idem (lstrip s))
