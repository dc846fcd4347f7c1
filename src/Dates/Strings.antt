-- ===== src/Dates/Strings.antt =====
-- Round trips of the date strings of frontend/src/lib/date.ts.
use pwa_attendance_record_sy.Prelude.{
  ℕ, zero, suc, ◌+◌, ◌/◌, ◌%◌, ◌≤◌, ◌<◌, ◌≡◌, refl, Bool, true, [], ◌∷◌, ◌++◌, arith, some, ltb,
  all, all-append,
}
use pwa_attendance_record_sy.Text.{Text, before}
use pwa_attendance_record_sy.Text.Decimal.{
  to_decimal, two_digits, two_digits_lem, digits_from, year_digits, digit_lem, number_two,
  number_four,
}
use pwa_attendance_record_sy.Dates.{
  LocalTime, iso_date_only, date_string, local_date_string, parse_date,
}

-- No code unit of the text is the letter T.
abbrev no_t : Text → Bool
no_t s = all (λ c. ltb c b'T') s

before_t : (s rest : Text) → no_t s ≡ true → before b'T' (s ++ (b'T' ∷ rest)) ≡ s
unfolding before
before_t [] rest h = refl
before_t (c ∷ s) rest h = ground (arith, before_t s rest)

before_t_alone : (s : Text) → no_t s ≡ true → before b'T' s ≡ s
unfolding before
before_t_alone [] h = refl
before_t_alone (c ∷ s) h = ground (arith, before_t_alone s)

digits-no_t : (f n : ℕ) → no_t (digits_from f n) ≡ true
unfolding digits_from
digits-no_t zero n = refl
digits-no_t (suc f) n = ground (
  arith,
  digits-no_t f (n / 10),
  all-append (λ (c : ℕ). ltb c b'T') (digits_from f (n / 10)) ((b'0' + n % 10) ∷ []),
)

decimal-no_t : (n : ℕ) → no_t (to_decimal n) ≡ true
unfolding to_decimal
decimal-no_t n = digits-no_t (suc n) n

two_digits-no_t : (n : ℕ) → n < 100 → no_t (two_digits n) ≡ true
two_digits-no_t n h = rw (two_digits_lem n h) (ground arith)

pub record IsDay (y m d : ℕ) : Type 0 where
  pub year_below : y < 10000
  pub year_above : 1000 ≤ y
  pub month_positive : 1 ≤ m
  pub month_at_most : m ≤ 12
  pub date_positive : 1 ≤ d
  pub date_at_most : d ≤ 31

date_string-no_t : (y m d : ℕ) → m < 100 → d < 100 → no_t (date_string y m d) ≡ true
unfolding date_string
date_string-no_t y m d p q = ground (
  arith,
  decimal-no_t y,
  two_digits-no_t m,
  two_digits-no_t d,
  all-append (λ (c : ℕ). ltb c b'T') (to_decimal y)
      (b'-' ∷ (two_digits m ++ (b'-' ∷ two_digits d))),
  all-append (λ (c : ℕ). ltb c b'T') (two_digits m) (b'-' ∷ two_digits d),
)

-- The calendar date of a naive timestamp is the one that it was written with, whatever the time
-- of the day: `isoDateOnly` of `localDateString(d)`, a T and any rest is `localDateString(d)`.
pub iso_date_only-local_date_string :
    (d : LocalTime) (rest : Text)
    → d.month < 100
    → d.date < 100
    → (iso_date_only (local_date_string d ++ (b'T' ∷ rest)) ≡ local_date_string d)
      × (iso_date_only (local_date_string d) ≡ local_date_string d)
unfolding iso_date_only local_date_string
iso_date_only-local_date_string d rest p q =
    let plain = date_string-no_t d.year d.month d.date p q in
    (
      before_t (date_string d.year d.month d.date) rest plain,
      before_t_alone (date_string d.year d.month d.date) plain,
    )

pub date_string_lem :
    (y m d : ℕ)
    → IsDay y m d
    → date_string y m d
      ≡ (b'0' + y / 10 / 10 / 10)
        ∷ (b'0' + y / 10 / 10 % 10)
        ∷ (b'0' + y / 10 % 10)
        ∷ (b'0' + y % 10)
        ∷ b'-'
        ∷ (b'0' + m / 10)
        ∷ (b'0' + m % 10)
        ∷ b'-'
        ∷ (b'0' + d / 10)
        ∷ (b'0' + d % 10)
        ∷ []
date_string_lem y m d v =
    unfold date_string in
    rw (
      year_digits y v.year_above v.year_below,
      two_digits_lem m (omega (arith, v.month_at_most)),
      two_digits_lem d (omega (arith, v.date_at_most)),
    )

-- Reading a date string gives the date back, for years of four digits.
pub parse-date_string : (y m d : ℕ) → IsDay y m d → parse_date (date_string y m d) ≡ some (y, m, d)
parse-date_string y m d v = rw (date_string_lem y m d v) (
    unfold parse_date in
    ground (
      arith,
      digit_lem (y / 10 / 10 / 10) (omega (arith, v.year_below)),
      digit_lem (y / 10 / 10 % 10) (omega arith),
      digit_lem (y / 10 % 10) (omega arith),
      digit_lem (y % 10) (omega arith),
      digit_lem (m / 10) (omega (arith, v.month_at_most)),
      digit_lem (m % 10) (omega arith),
      digit_lem (d / 10) (omega (arith, v.date_at_most)),
      digit_lem (d % 10) (omega arith),
      number_four y,
      number_two m,
      number_two d,
    ))
