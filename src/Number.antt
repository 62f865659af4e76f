-- ===== src/Number.antt =====
-- patch.cpp, `read_uint` (lines 96 to 112) and `parse_decimal_full` (lines 177 to 189). An int64_t
-- that these return is never negative, so it is a natural number here; both stop before a product
-- or a sum leaves the range, so no step wraps around.
pub mod Decimal
pub mod Print
use phpatcher.Base.{
  ℕ, ◌+◌, ◌-◌, ◌*◌, ◌/◌, ◌^◌, Bool, true, false, not, ◌||◌, List, [], ◌∷◌, Option, none, some, ◌≡◌,
  refl, Bytes, codes, ltb, if◌then◌else◌,
}
use phpatcher.Text.{is_digit}

abbrev pub int64_max : ℕ
int64_max = 2 ^ 63 - 1

-- The loop over the digits, with the value so far; it gives the value and the text behind them.
read_digits : ℕ → Bytes → Option (ℕ × Bytes)
unfolding is_digit
read_digits value [] = some (value, [])
read_digits value (c ∷ s) =
    if is_digit c
    then if ltb ((int64_max - 9) / 10) value then none else read_digits (value * 10 + (c - b'0')) s
    else some (value, c ∷ s)

unfoldable pub read_uint : Bytes → Option (ℕ × Bytes)
unfolding read_digits is_digit
read_uint [] = none
read_uint (c ∷ s) = if not (is_digit c) then none else read_digits 0 (c ∷ s)

full_digits : ℕ → Bytes → Option ℕ
full_digits v [] = some v
full_digits v (c ∷ s) =
    if ltb c b'0' || ltb b'9' c
    then none
    else if ltb ((int64_max - (c - b'0')) / 10) v
    then none
    else full_digits (v * 10 + (c - b'0')) s

unfoldable pub parse_decimal_full : Bytes → Option ℕ
unfolding full_digits
parse_decimal_full [] = none
parse_decimal_full (c ∷ s) = full_digits 0 (c ∷ s)

read_uint_stops : read_uint (codes "12,5") ≡ some (12, codes ",5")
unfolding read_uint
read_uint_stops = refl

parse_decimal_full_max : parse_decimal_full (codes "9223372036854775807") ≡ some int64_max
unfolding parse_decimal_full
parse_decimal_full_max = refl

-- `read_uint` gives up one step earlier: it does not look at the last digit.
read_uint_max : read_uint (codes "9223372036854775807") ≡ none
unfolding read_uint
read_uint_max = refl
