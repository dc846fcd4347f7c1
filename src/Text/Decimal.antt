-- ===== src/Text/Decimal.antt =====
-- `String(n)` and `padStart(2, "0")` of a number, and how padded numbers compare.
use pwa_attendance_record_sy.Prelude.{
  ℕ, zero, suc, ◌+◌, ◌-◌, ◌*◌, ◌/◌, ◌%◌, ◌≤◌, ◌<◌, ◌≡◌, refl, Bool, true, ◌&&◌, [], ◌∷◌, ◌++◌,
  arith, ltb, leb, if◌then◌else◌, Bool-cases, inl, inr, ltb→lt,
}
use pwa_attendance_record_sy.Text.{Text, text_lt}

-- The decimal digits, most significant first, on fuel.
unfoldable pub digits_from : ℕ → ℕ → Text
digits_from zero n = []
digits_from (suc f) n =
    let more = digits_from f (n / 10) ++ (b'0' + n % 10) ∷ [] in
    if ltb n 10 then (b'0' + n) ∷ [] else more

-- `String(n)`: a number has at most as many digits as it counts, so the fuel never runs out.
unfoldable pub to_decimal : ℕ → Text
unfolding digits_from
to_decimal n = digits_from (suc n) n

-- `s.padStart(2, "0")`
unfoldable pub pad_start : Text → Text
pad_start [] = b'0' ∷ b'0' ∷ []
pad_start (c ∷ []) = b'0' ∷ c ∷ []
pad_start (c ∷ d ∷ s) = c ∷ d ∷ s

-- `String(n).padStart(2, "0")`
unfoldable pub two_digits : ℕ → Text
unfolding pad_start to_decimal
two_digits n = pad_start (to_decimal n)

unfoldable pub is_digit : ℕ → Bool
is_digit c = leb b'0' c && leb c b'9'

digits_from_small : (f n : ℕ) → n < 10 → digits_from (suc f) n ≡ (b'0' + n) ∷ []
unfolding digits_from
digits_from_small f n h = ground arith

digits_from_more :
    (f n : ℕ) → 10 ≤ n → digits_from (suc f) n ≡ digits_from f (n / 10) ++ (b'0' + n % 10) ∷ []
unfolding digits_from
digits_from_more f n h = elim (Bool-cases (ltb n 10)) [
  | inl e ↦ absurd (omega (arith, ltb→lt n 10 e))
  | inr e ↦ rw e
]

digits_from_four :
    (f n : ℕ)
    → 1000 ≤ n
    → n < 10000
    → digits_from (suc (suc (suc (suc f)))) n
      ≡ (b'0' + n / 10 / 10 / 10)
        ∷ (b'0' + n / 10 / 10 % 10)
        ∷ (b'0' + n / 10 % 10)
        ∷ (b'0' + n % 10)
        ∷ []
digits_from_four f n h k = rw (digits_from_more (suc (suc (suc f))) n (omega arith)) (
    rw (digits_from_more (suc (suc f)) (n / 10) (omega arith)) (
      rw (digits_from_more (suc f) (n / 10 / 10) (omega arith))
        (rw (digits_from_small f (n / 10 / 10 / 10) (omega arith)))))

-- A year of four digits, and its digits read back.
pub year_digits :
    (y : ℕ)
    → 1000 ≤ y
    → y < 10000
    → to_decimal y
      ≡ (b'0' + y / 10 / 10 / 10)
        ∷ (b'0' + y / 10 / 10 % 10)
        ∷ (b'0' + y / 10 % 10)
        ∷ (b'0' + y % 10)
        ∷ []
unfolding to_decimal
year_digits zero h k = absurd (omega arith)
year_digits (suc zero) h k = absurd (omega arith)
year_digits (suc (suc zero)) h k = absurd (omega arith)
year_digits (suc (suc (suc z))) h k = digits_from_four z (suc (suc (suc z))) h k

-- A number below 100 is written in two digits.
pub two_digits_lem : (n : ℕ) → n < 100 → two_digits n ≡ (b'0' + n / 10) ∷ (b'0' + n % 10) ∷ []
unfolding two_digits
two_digits_lem zero h = refl
two_digits_lem (suc n) h = ground (arith, digits_from_small n (suc n / 10))

-- The number that a run of digits stands for, after `acc`.
unfoldable pub number_from : ℕ → Text → ℕ
number_from acc [] = acc
number_from acc (c ∷ s) = number_from (acc * 10 + (c - b'0')) s

pub number_from-append :
    (acc : ℕ) (s t : Text) → number_from acc (s ++ t) ≡ number_from (number_from acc s) t
unfolding number_from
number_from-append acc [] t = refl
number_from-append acc (c ∷ s) t = number_from-append (acc * 10 + (c - b'0')) s t

number_from-digit : (n : ℕ) → n < 10 → number_from 0 ((b'0' + n) ∷ []) ≡ n
unfolding number_from
number_from-digit n h = omega arith

number_from-more :
    (s : Text) (n : ℕ) → number_from 0 s ≡ n / 10 → number_from 0 (s ++ (b'0' + n % 10) ∷ []) ≡ n
number_from-more s n ih =
    rw (number_from-append 0 s ((b'0' + n % 10) ∷ []), ih) (unfold number_from in omega arith)

number_from-digits_from : (f n : ℕ) → n < f → number_from 0 (digits_from f n) ≡ n
unfolding digits_from
number_from-digits_from zero n h = elim h [ ]
number_from-digits_from (suc f) n h = elim (Bool-cases (ltb n 10)) [
  | inl e ↦ rw e (number_from-digit n (ltb→lt n 10 e))
  | inr e ↦ rw e (
      number_from-more (digits_from f (n / 10)) n
        (number_from-digits_from f (n / 10) (ground arith)))
]

-- Reading a number's digits gives the number back: the fuel of `to_decimal` is enough.
pub number-to_decimal : (n : ℕ) → number_from 0 (to_decimal n) ≡ n
unfolding to_decimal
number-to_decimal n = number_from-digits_from (suc n) n (omega arith)

-- A time of day as "HH:MM".
unfoldable pub hh_mm : ℕ → ℕ → Text
unfolding two_digits
hh_mm h m = two_digits h ++ (b':' ∷ two_digits m)

pub hh_mm_lem :
    (h m : ℕ)
    → h < 24
    → m < 60
    → hh_mm h m ≡ (b'0' + h / 10) ∷ (b'0' + h % 10) ∷ b':' ∷ (b'0' + m / 10) ∷ (b'0' + m % 10) ∷ []
hh_mm_lem h m p q =
    unfold hh_mm in rw (two_digits_lem h (omega arith), two_digits_lem m (omega arith))

-- Times written "HH:MM" compare as texts exactly as the minutes of the day that they stand for.
pub text_lt-hh_mm :
    (h m h' m' : ℕ)
    → h < 24
    → m < 60
    → h' < 24
    → m' < 60
    → text_lt (hh_mm h m) (hh_mm h' m') ≡ ltb (h * 60 + m) (h' * 60 + m')
text_lt-hh_mm h m h' m' p q p' q' =
    rw (hh_mm_lem h m p q, hh_mm_lem h' m' p' q') (unfold text_lt in ground arith)

pub digit_lem : (n : ℕ) → n < 10 → is_digit (b'0' + n) ≡ true
unfolding is_digit
digit_lem n h = ground arith

-- Two digits, and four, read as the number that they were written for.
pub number_two : (n : ℕ) → number_from 0 ((b'0' + n / 10) ∷ (b'0' + n % 10) ∷ []) ≡ n
unfolding number_from
number_two n = omega arith

pub number_four :
    (n : ℕ)
    → number_from 0 (
        (b'0' + n / 10 / 10 / 10)
        ∷ (b'0' + n / 10 / 10 % 10)
        ∷ (b'0' + n / 10 % 10)
        ∷ (b'0' + n % 10)
        ∷ [])
      ≡ n
unfolding number_from
number_four n = omega arith
