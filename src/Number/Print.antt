-- ===== src/Number/Print.antt =====
-- std::to_string and `operator<<` on a number that is not negative.
use phpatcher.Base.{
  ltb, if◌then◌else◌, Bool-cases, Bytes, codes, All, All-append, ℕ, zero, suc, ◌+◌, ◌-◌, ◌*◌, ◌/◌,
  ◌%◌, ◌≤◌, ◌<◌, [], ◌∷◌, ◌++◌, cons-ne-nil, append-nil, append_assoc, ◌≢◌, inl, inr, some, ◌≡◌,
  refl, sym, ap, ◌∙◌, arith,
}
use phpatcher.Number.{int64_max, read_uint, parse_decimal_full}
use phpatcher.Number.Decimal.{
  IsDigit, value, read_limit, read_uint_complete, parse_decimal_full_lem,
}
use phpatcher.Text.{is_digit}
use phpatcher.Text.Trim.{HeadFails}

-- The digits of `n` in front of `out`; each round takes one off.
print_digits : ℕ → ℕ → Bytes → Bytes
print_digits zero n out = out
print_digits (suc fuel) n out =
    let more = print_digits fuel (n / 10) ((b'0' + n % 10) ∷ out) in
    if ltb n 10 then (b'0' + n) ∷ out else more

-- A number has at most as many digits as rounds are given.
unfoldable pub to_string : ℕ → Bytes
unfolding print_digits
to_string n = print_digits (suc n) n []

value-append : (xs ys : Bytes) (n : ℕ) → value n (xs ++ ys) ≡ value (value n xs) ys
value-append [] ys n = refl
value-append (x ∷ xs) ys n = value-append xs ys (n * 10 + (x - b'0'))

-- What `print_digits` writes: digits that spell the number.
record Spells (n : ℕ) (ds : Bytes) : Type 0 where
  digits : All IsDigit ds
  nonempty : ds ≢ []
  spelt : value 0 ds ≡ n

Spells-append : (n : ℕ) (ds : Bytes) → Spells (n / 10) ds → Spells n (ds ++ (b'0' + n % 10) ∷ [])
Spells-append n ds s = record {
  digits = All-append IsDigit ds _ s.digits ((omega arith), tt);
  nonempty = λ e. cons-ne-nil (b'0' + n % 10) [] (append-right-nil ds _ e);
  spelt = value-append ds _ 0 ∙ rw s.spelt (omega arith);
}
  where
    append-right-nil : (xs ys : Bytes) → xs ++ ys ≡ [] → ys ≡ []
    append-right-nil [] ys e = e
    append-right-nil (x ∷ xs) ys e = cc

print_digits-Spells :
    (fuel n : ℕ) (out : Bytes)
    → n < fuel
    → (ds : Bytes) × (print_digits fuel n out ≡ ds ++ out) × Spells n ds
unfolding print_digits
print_digits-Spells zero n out h = elim h [ ]
print_digits-Spells (suc fuel) n out h = elim (Bool-cases (ltb n 10)) [
  | inl small ↦ (
    (b'0' + n) ∷ [],
    rw small,
    record { digits = ground arith; nonempty = cons-ne-nil (b'0' + n) []; spelt = ground arith },
  )
  | inr large ↦
      let (ds, shape, s) =
        print_digits-Spells fuel (n / 10) ((b'0' + n % 10) ∷ out) (ground arith) in
      (
        ds ++ (b'0' + n % 10) ∷ [],
        rw large (shape ∙ sym (append_assoc ds _ out)),
        Spells-append n ds s,
      )
]

to_string-Spells : (n : ℕ) → Spells n (to_string n)
unfolding to_string
to_string-Spells n =
    let (ds, shape, s) = print_digits-Spells (suc n) n [] (omega arith) in rw (shape, append-nil) s

-- A printed number is one or more digits.
pub to_string-digits : (n : ℕ) → (to_string n ≢ []) × All IsDigit (to_string n)
to_string-digits n = let s = to_string-Spells n in (s.nonempty, s.digits)

-- A printed number is read back, with whatever follows it, up to the limit of `read_uint`.
pub read_uint-to_string :
    (n : ℕ) (rest : Bytes)
    → n ≤ read_limit
    → HeadFails is_digit rest
    → read_uint (to_string n ++ rest) ≡ some (n, rest)
read_uint-to_string n rest h stops =
    let s = to_string-Spells n in
    read_uint_complete (to_string n) rest s.nonempty s.digits stops (rw s.spelt h)
    ∙ ap (λ (m : ℕ). some (m, rest)) s.spelt

-- And by `parse_decimal_full`, up to the largest int64.
pub parse_decimal_full-to_string :
    (n : ℕ) → n ≤ int64_max → parse_decimal_full (to_string n) ≡ some n
parse_decimal_full-to_string n h =
    let s = to_string-Spells n in
    (parse_decimal_full_lem (to_string n) n).1 (s.nonempty, s.digits, sym s.spelt, h)

to_string_digits : to_string 1205 ≡ codes "1205"
unfolding to_string
to_string_digits = refl
