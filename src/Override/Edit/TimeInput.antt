-- ===== src/Override/Edit/TimeInput.antt =====
-- What the time inputs of the monthly override page can hold.
use pwa_attendance_record_sy.Prelude.{
  ℕ, suc, ◌≤◌, ◌<◌, ◌≡◌, refl, true, false, [], ◌∷◌, arith, length, take, filter, all, ◌/◌, ◌%◌,
  zero, ap,
}
use pwa_attendance_record_sy.Text.{Text, slice}
use pwa_attendance_record_sy.Text.Decimal.{is_digit, digit_lem, hh_mm, hh_mm_lem}
use pwa_attendance_record_sy.Override.Edit.{with_colon, normalize_time_input}

all-filter : (s : Text) → all is_digit (filter is_digit s) ≡ true
all-filter [] = refl
all-filter (c ∷ s) = ground (arith, all-filter s)

all-take : (n : ℕ) (s : Text) → all is_digit s ≡ true → all is_digit (take n s) ≡ true
all-take zero s h = refl
all-take (suc n) [] h = refl
all-take (suc n) (c ∷ s) h = ground (arith, all-take n s)

length-take_le : (n : ℕ) (s : Text) → length (take n s) ≤ n
length-take_le zero s = omega arith
length-take_le (suc n) [] = omega arith
length-take_le (suc n) (c ∷ s) = omega (arith, length-take_le n s)

colon_not_digit : is_digit b':' ≡ false
unfolding is_digit
colon_not_digit = refl

digits_back :
    (d : Text)
    → all is_digit d ≡ true
    → length d ≤ 4
    → slice 0 4 (filter is_digit (with_colon d)) ≡ d
unfolding with_colon
digits_back [] h k = refl
digits_back (a ∷ []) h k = ground arith
digits_back (a ∷ b ∷ []) h k = ground arith
digits_back (a ∷ b ∷ c ∷ []) h k = ground (arith, colon_not_digit)
digits_back (a ∷ b ∷ c ∷ d ∷ []) h k = ground (arith, colon_not_digit)
digits_back (a ∷ b ∷ c ∷ d ∷ e ∷ s) h k = absurd (omega arith)

-- Digits, with a colon as the third unit if there are more than two.
abbrev pub HasTimeShape : Text → Type 0
HasTimeShape [] = Unit
HasTimeShape (a ∷ []) = is_digit a ≡ true
HasTimeShape (a ∷ b ∷ []) = (is_digit a ≡ true) × (is_digit b ≡ true)
HasTimeShape (a ∷ b ∷ c ∷ rest) =
    (is_digit a ≡ true)
    × (is_digit b ≡ true)
    × (c ≡ b':')
    × (1 ≤ length rest)
    × (length rest ≤ 2)
    × (all is_digit rest ≡ true)

with_colon-HasTimeShape :
    (d : Text) → all is_digit d ≡ true → length d ≤ 4 → HasTimeShape (with_colon d)
unfolding with_colon
with_colon-HasTimeShape [] h k = tt
with_colon-HasTimeShape (a ∷ []) h k = ground arith
with_colon-HasTimeShape (a ∷ b ∷ []) h k = ground arith
with_colon-HasTimeShape (a ∷ b ∷ c ∷ []) h k = ground arith
with_colon-HasTimeShape (a ∷ b ∷ c ∷ d ∷ []) h k = ground arith
with_colon-HasTimeShape (a ∷ b ∷ c ∷ d ∷ e ∷ s) h k = absurd (omega arith)

-- Whatever is typed, a time input holds at most four digits, with a colon behind the second if
-- there are more than two, and normalising what it holds again changes nothing.
pub normalize_time_input-HasTimeShape :
    (raw : Text)
    → HasTimeShape (normalize_time_input raw)
      × (normalize_time_input (normalize_time_input raw) ≡ normalize_time_input raw)
unfolding normalize_time_input
normalize_time_input-HasTimeShape raw =
    let d = slice 0 4 (filter is_digit raw) in
    let digits = all-take 4 (filter is_digit raw) (all-filter raw) in
    let short = length-take_le 4 (filter is_digit raw) in
    (with_colon-HasTimeShape d digits short, ap with_colon (digits_back d digits short))

-- A time that the page shows ("HH:MM") passes through the input unchanged.
pub normalize_time_input-hh_mm :
    (h m : ℕ) → h < 24 → m < 60 → normalize_time_input (hh_mm h m) ≡ hh_mm h m
normalize_time_input-hh_mm h m p q = rw (hh_mm_lem h m p q) (
    unfold normalize_time_input with_colon in
    ground (
      arith,
      digit_lem (h / 10) (omega arith),
      digit_lem (h % 10) (omega arith),
      digit_lem (m / 10) (omega arith),
      digit_lem (m % 10) (omega arith),
      colon_not_digit,
    ))
