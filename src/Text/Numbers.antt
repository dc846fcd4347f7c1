-- ===== src/Text/Numbers.antt =====
-- Numbers with at most one decimal, which is what the overtime column holds, in tenths; and NaN.
use pwa_attendance_record_sy.Prelude.{
  ℕ, ◌+◌, ◌-◌, ◌*◌, Bool, true, false, ◌&&◌, List, [], ◌∷◌, Option, none, some, ◌==◌, if◌then◌else◌,
  all,
}
use pwa_attendance_record_sy.Text.{Text, truthy, split}
use pwa_attendance_record_sy.Text.Decimal.{number_from, is_digit}

pub data Num : Type 0 where
  tenths : ℕ → Num
  nan : Num

-- `a === b`: NaN is not equal to itself.
unfoldable pub num_eq : Num → Num → Bool
num_eq (tenths a) (tenths b) = a == b
num_eq (tenths a) nan = false
num_eq nan b = false

-- `a === b` for nullable numbers.
unfoldable pub num_eq? : Option Num → Option Num → Bool
unfolding num_eq
num_eq? none none = true
num_eq? none (some b) = false
num_eq? (some a) none = false
num_eq? (some a) (some b) = num_eq a b

-- `Number(s)` of a decimal numeral with at most one decimal; any other text is read as NaN. The
-- texts that reach it are the values of the overtime options, "1", "1.5" and so on.
of_parts : List Text → Num
of_parts (i ∷ []) = if truthy i && all is_digit i then tenths (number_from 0 i * 10) else nan
of_parts (i ∷ (d ∷ []) ∷ []) =
    if truthy i && all is_digit i && is_digit d
    then tenths (number_from 0 i * 10 + (d - b'0'))
    else nan
of_parts _ = nan

unfoldable pub number_of : Text → Num
unfolding of_parts is_digit number_from split
number_of s = of_parts (split b'.' s)
