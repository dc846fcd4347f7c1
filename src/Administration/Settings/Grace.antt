-- ===== src/Administration/Settings/Grace.antt =====
-- The grace period from the service to the form and back (frontend/src/app/admin/page.tsx,
-- GracePeriodSection).
use pwa_attendance_record_sy.Prelude.{
  ℕ, zero, suc, ◌+◌, ◌≤◌, ◌≡◌, refl, ◌∙◌, ap, true, false, [], ◌∷◌, ◌++◌, Option, none, some, ltb,
  leb, ltb→lt, ◌==◌, ◌/◌, ◌%◌, all, arith, if◌then◌else◌, Bool-cases, inl, inr, all-append,
}
use pwa_attendance_record_sy.Text.{Text, trim_start, truthy, is_space}
use pwa_attendance_record_sy.Text.Decimal.{
  to_decimal, digits_from, is_digit, digit_lem, number_from, number-to_decimal,
}
use pwa_attendance_record_sy.Administration.Settings.{
  SettingsForm, leading_digits, SignedNumber, parse_digits, parse_signed, parse_int, out_of_range,
  grace_loaded, check_grace, submit_grace,
}

digits_from-is_digit : (f n : ℕ) → all is_digit (digits_from f n) ≡ true
unfolding digits_from
digits_from-is_digit zero n = refl
digits_from-is_digit (suc f) n = elim (Bool-cases (ltb n 10)) [
  | inl e ↦ rw e (ground (arith, digit_lem n (ltb→lt n 10 e)))
  | inr e ↦
      rw (e, all-append is_digit (digits_from f (n / 10)) ((b'0' + n % 10) ∷ []))
        (ground (arith, digits_from-is_digit f (n / 10), digit_lem (n % 10) (omega arith)))
]

truthy-append : (s : Text) (c : ℕ) → truthy (s ++ c ∷ []) ≡ true
truthy-append [] c = refl
truthy-append (d ∷ s) c = refl

digits_from-truthy : (f n : ℕ) → truthy (digits_from (suc f) n) ≡ true
unfolding digits_from
digits_from-truthy f n = elim (Bool-cases (ltb n 10)) [
  | inl e ↦ rw e refl
  | inr e ↦ rw e (truthy-append (digits_from f (n / 10)) (b'0' + n % 10))
]

leading_digits_lem : (s : Text) → all is_digit s ≡ true → leading_digits s ≡ s
unfolding leading_digits
leading_digits_lem [] h = refl
leading_digits_lem (c ∷ s) h = ground (arith, h, leading_digits_lem s)

digit_not :
    (c : ℕ)
    → is_digit c ≡ true
    → (is_space c ≡ false) × ((c == b'-') ≡ false) × ((c == b'+') ≡ false)
unfolding is_digit is_space
digit_not c h = ground (arith, h)

-- A numeral is read as the number that its digits stand for.
parse_int-digits :
    (s : Text)
    → all is_digit s ≡ true
    → truthy s ≡ true
    → parse_int s ≡ some (record { negative = false; size = number_from 0 s })
unfolding parse_int parse_signed parse_digits trim_start
parse_int-digits [] h t = ground (arith, t)
parse_int-digits (c ∷ s) h t =
    let k = digit_not c (ground (arith, h)) in rw (k.0, k.1, k.2, leading_digits_lem (c ∷ s) h) refl

parse_int-to_decimal :
    (n : ℕ) → parse_int (to_decimal n) ≡ some (record { negative = false; size = n })
parse_int-to_decimal n =
    parse_int-digits (to_decimal n) (unfold to_decimal in digits_from-is_digit (suc n) n)
      (unfold to_decimal in digits_from-truthy n n)
    ∙ ap (λ k. some (record { negative = false; size = k })) (number-to_decimal n)

-- Saving the grace period as it was loaded sends the same number of minutes, for up to 60 of them;
-- a longer one is refused by the form.
pub submit_grace-grace_loaded :
    (minutes : ℕ) (p : SettingsForm Text)
    → (submit_grace (grace_loaded minutes p)).1 ≡ (if leb minutes 60 then some minutes else none)
unfolding submit_grace grace_loaded
submit_grace-grace_loaded minutes p =
    rw (parse_int-to_decimal minutes) (unfold check_grace out_of_range in ground arith)

check_grace-at_most :
    (o : Option SignedNumber) (p : SettingsForm Text) (m : ℕ)
    → (check_grace o p).1 ≡ some m
    → m ≤ 60
unfolding check_grace out_of_range
check_grace-at_most none p m h = ground (arith, h)
check_grace-at_most (some n) p m h = ground (arith, h)

-- Whatever the input has, only a number from 0 to 60 is sent.
pub submit_grace-at_most :
    (p : SettingsForm Text) (minutes : ℕ) → (submit_grace p).1 ≡ some minutes → minutes ≤ 60
unfolding submit_grace
submit_grace-at_most p minutes h = check_grace-at_most (parse_int p.values) p minutes h
