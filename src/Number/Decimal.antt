-- ===== src/Number/Decimal.antt =====
-- Which texts the two readers accept, and the values that they give.
use phpatcher.Base.{
  ltb, Bool-cases, Bytes, All, ℕ, ◌+◌, ◌-◌, ◌*◌, ◌/◌, ◌≤◌, true, false, [], ◌∷◌, ◌++◌, cons-ne-nil,
  ◌≢◌, ◌↔◌, inl, inr, some, ◌≡◌, refl, sym, ap, subst, ◌∙◌, arith,
}
use phpatcher.Number.{int64_max, read_digits, read_uint, full_digits, parse_decimal_full}
use phpatcher.Text.{is_digit}
use phpatcher.Text.Trim.{HeadFails}

abbrev pub IsDigit : ℕ → Type 0
IsDigit c = (b'0' ≤ c) × (c ≤ b'9')

-- What decimal digits add to the number in front of them, as a number of any size.
abbrev pub value : ℕ → Bytes → ℕ
value front [] = front
value front (d ∷ ds) = value (front * 10 + (d - b'0')) ds

le-value : (ds : Bytes) (acc : ℕ) → acc ≤ value acc ds
le-value [] acc = omega arith
le-value (d ∷ ds) acc = let next = acc * 10 + (d - b'0') in omega (le-value ds next, arith)

-- The largest number that `read_uint` accepts.
abbrev pub read_limit : ℕ
read_limit = (int64_max - 9) / 10 * 10 + 9

read_digits_sound :
    (s : Bytes) (n r : ℕ) (rest : Bytes)
    → n ≤ read_limit
    → read_digits n s ≡ some (r, rest)
    → (ds : Bytes) × (s ≡ ds ++ rest)
      × All IsDigit ds
      × (r ≡ value n ds)
      × (r ≤ read_limit)
      × HeadFails is_digit rest
unfolding read_digits
read_digits_sound [] n r rest fits h =
    ([], ground arith, tt, ground arith, ground arith, ground arith)
read_digits_sound (c ∷ s) n r rest fits h = elim (Bool-cases (is_digit c)) [
  | inl d ↦ elim (Bool-cases (ltb ((int64_max - 9) / 10) n)) [
    | inl big ↦ absurd (ground arith)
    | inr small ↦
        let (ds, split, all, the_value, bound, head) =
          read_digits_sound s (n * 10 + (c - b'0')) r rest (unfold is_digit in ground arith)
            (rw (d, small) at h) in
        (c ∷ ds, ap (◌∷◌ c) split, (unfold is_digit in ground arith, all), the_value, bound, head)
  ]
  | inr d ↦ ([], ground arith, tt, ground arith, ground arith, ground arith)
]

-- A number that `read_uint` returns is the true value of the digits that it took: there is at
-- least one, the text goes on with no digit, and nothing wrapped around.
pub read_uint_sound :
    (s : Bytes) {r : ℕ} {rest : Bytes}
    → read_uint s ≡ some (r, rest)
    → (ds : Bytes) × (s ≡ ds ++ rest)
      × (ds ≢ [])
      × All IsDigit ds
      × (r ≡ value 0 ds)
      × (r ≤ int64_max)
      × HeadFails is_digit rest
unfolding read_uint
read_uint_sound [] h = cc
read_uint_sound (c ∷ s) {r} {rest} h = elim (Bool-cases (is_digit c)) [
  | inr d ↦ absurd (ground arith)
  | inl d ↦
      let (ds, split, all, the_value, bound, head) =
        read_digits_sound (c ∷ s) 0 r rest (omega arith) (ground arith) in
      (ds, split, nonempty ds split head d, all, the_value, omega arith, head)
]
  where
    nonempty :
        (ds : Bytes) → c ∷ s ≡ ds ++ rest → HeadFails is_digit rest → is_digit c ≡ true → ds ≢ []
    nonempty (d ∷ ds) split head digit e = cc
    nonempty [] split head digit e =
        let stops : is_digit c ≡ false = subst (HeadFails is_digit) (sym split) head in cc

read_digits_complete :
    (ds : Bytes) (n : ℕ) (rest : Bytes)
    → All IsDigit ds
    → HeadFails is_digit rest
    → value n ds ≤ read_limit
    → read_digits n (ds ++ rest) ≡ some (value n ds, rest)
unfolding read_digits
read_digits_complete [] n [] _ head fits = refl
read_digits_complete [] n (c ∷ rest) _ head fits = rw head
read_digits_complete (c ∷ ds) n rest (hc, hs) head fits =
    let m = n * 10 + (c - b'0') in
    unfold is_digit in ground (arith, read_digits_complete ds m rest hs head fits, le-value ds m)

-- `read_uint` reads every run of digits that spells a number up to `read_limit`.
pub read_uint_complete :
    (ds rest : Bytes)
    → ds ≢ []
    → All IsDigit ds
    → HeadFails is_digit rest
    → value 0 ds ≤ read_limit
    → read_uint (ds ++ rest) ≡ some (value 0 ds, rest)
unfolding read_uint
read_uint_complete [] rest h _ _ _ = absurd (h refl)
read_uint_complete (c ∷ ds) rest _ (hc, hs) head fits =
    unfold is_digit in ground (arith, read_digits_complete (c ∷ ds) 0 rest (hc, hs) head fits)

full_digits_sound :
    (s : Bytes) (n r : ℕ)
    → n ≤ int64_max
    → full_digits n s ≡ some r
    → All IsDigit s × (r ≡ value n s) × (r ≤ int64_max)
unfolding full_digits
full_digits_sound [] n r fits h = ground arith
full_digits_sound (c ∷ s) n r fits h = ground (arith, full_digits_sound s (n * 10 + (c - b'0')) r)

full_digits_complete :
    (s : Bytes) (n : ℕ) → All IsDigit s → value n s ≤ int64_max → full_digits n s ≡ some (value n s)
unfolding full_digits
full_digits_complete [] n _ _ = refl
full_digits_complete (c ∷ s) n (hc, hs) fits =
    let m = n * 10 + (c - b'0') in ground (arith, full_digits_complete s m hs fits, le-value s m)

-- `parse_decimal_full` accepts exactly the nonempty runs of digits whose value fits in an int64,
-- and returns that value.
pub parse_decimal_full_lem :
    (s : Bytes) (r : ℕ)
    → (parse_decimal_full s ≡ some r)
      ↔ ((s ≢ []) × All IsDigit s × (r ≡ value 0 s) × (r ≤ int64_max))
unfolding parse_decimal_full
parse_decimal_full_lem [] r = ((λ h. cc), (λ h. absurd (h.0 refl)))
parse_decimal_full_lem (c ∷ s) r = (
  (λ h.
      let (all, the_value, fits) = full_digits_sound (c ∷ s) 0 r (omega arith) h in
      (cons-ne-nil c s, all, the_value, fits)),
  (λ (ne, all, the_value, fits).
      full_digits_complete (c ∷ s) 0 all (omega arith) ∙ ap some (sym the_value)),
)
