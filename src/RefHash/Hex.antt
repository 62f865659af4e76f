-- ===== src/RefHash/Hex.antt =====
-- The hex digits of a hash are read back to the same hash.
use native.Mathlib.Nat.{div-div-eq-div-mul, div-le_self, div-one, pow-suc, add-zero}
use phpatcher.Base.{
  lt→ltb, le→ltb_false, Bytes, length, ℕ, zero, suc, ◌+◌, ◌/◌, ◌%◌, ◌^◌, ◌≤◌, ◌<◌, [], ◌∷◌, ◌++◌,
  append-nil, some, ◌≡◌, refl, sym, ap, ◌∙◌, arith,
}
use phpatcher.RefHash.{
  u64_mod, RefHash, mix, ref_hash, hex_digit, lane_hex, ref_hash_hex, hex_value, shift_in,
  parse_hex, ref_hash_parse,
}

pub record IsHash (h : RefHash) : Type 0 where
  pub lane_a : h.a < u64_mod
  pub lane_b : h.b < u64_mod

hex_value-hex_digit : (v : ℕ) → v < 16 → hex_value (hex_digit v) ≡ some v
unfolding hex_value hex_digit
hex_value-hex_digit v h = ground arith

-- Both lanes are residues, whatever the text.
mix-IsHash : (h : RefHash) (c : ℕ) → IsHash (mix h c)
unfolding mix
mix-IsHash h c = omega arith

ref_hash-IsHash : (s : Bytes) → IsHash (ref_hash s)
unfolding ref_hash
ref_hash-IsHash s = mix-IsHash _ _

length-lane_hex : (n h : ℕ) → length (lane_hex n h) ≡ n
unfolding lane_hex
length-lane_hex zero h = refl
length-lane_hex (suc n) h = ap suc (length-lane_hex n h)

div_step : (h n : ℕ) → h / 16 ^ suc n ≡ h / 16 ^ n / 16
div_step h n = ap (λ (k : ℕ). h / k) (pow-suc 16 n) ∙ sym (div-div-eq-div-mul h (16 ^ n) 16)

shift_in_digit : (q : ℕ) → q < u64_mod → shift_in (q / 16) (q % 16) ≡ q
shift_in_digit q h = omega arith

-- One digit of the first lane, and one of the second.
parse_hex_digit_a :
    (i q b : ℕ) (s : Bytes)
    → i < 16
    → q < u64_mod
    → parse_hex i (record { a = q / 16; b = b }) (hex_digit (q % 16) ∷ s)
      ≡ parse_hex (i + 1) (record { a = q; b = b }) s
unfolding parse_hex
parse_hex_digit_a i q b s first h =
    rw (hex_value-hex_digit (q % 16) (omega arith), lt→ltb i 16 first) (rw (shift_in_digit q h))

parse_hex_digit_b :
    (i a q : ℕ) (s : Bytes)
    → 16 ≤ i
    → q < u64_mod
    → parse_hex i (record { a = a; b = q / 16 }) (hex_digit (q % 16) ∷ s)
      ≡ parse_hex (i + 1) (record { a = a; b = q }) s
unfolding parse_hex
parse_hex_digit_b i a q s second h =
    rw (hex_value-hex_digit (q % 16) (omega arith), le→ltb_false i 16 second)
      (rw (shift_in_digit q h))

-- Before its last `n` digits are read, a lane holds the hash without its last `n` nibbles.
parse_hex-lane_a :
    (n i x b : ℕ) (s : Bytes)
    → i + n ≤ 16
    → x < u64_mod
    → parse_hex i (record { a = x / 16 ^ n; b = b }) (lane_hex n x ++ s)
      ≡ parse_hex (i + n) (record { a = x; b = b }) s
unfolding lane_hex
parse_hex-lane_a zero i x b s h lt = rw (div-one x, add-zero i)
parse_hex-lane_a (suc n) i x b s h lt = rw (div_step x n) (
    parse_hex_digit_a i (x / 16 ^ n) b _ (omega arith) (omega (arith, div-le_self x (16 ^ n)))
    ∙ parse_hex-lane_a n (i + 1) x b s (omega arith) lt
    ∙ ap (λ (k : ℕ). parse_hex k (record { a = x; b = b }) s) (omega arith))

parse_hex-lane_b :
    (n i a x : ℕ) (s : Bytes)
    → 16 ≤ i
    → x < u64_mod
    → parse_hex i (record { a = a; b = x / 16 ^ n }) (lane_hex n x ++ s)
      ≡ parse_hex (i + n) (record { a = a; b = x }) s
unfolding lane_hex
parse_hex-lane_b zero i a x s h lt = rw (div-one x, add-zero i)
parse_hex-lane_b (suc n) i a x s h lt = rw (div_step x n) (
    parse_hex_digit_b i a (x / 16 ^ n) _ h (omega (arith, div-le_self x (16 ^ n)))
    ∙ parse_hex-lane_b n (i + 1) a x s (omega arith) lt
    ∙ ap (λ (k : ℕ). parse_hex k (record { a = a; b = x }) s) (omega arith))

parse_hex-lanes :
    (h : RefHash)
    → IsHash h
    → parse_hex 0 (record { a = 0; b = 0 }) (lane_hex 16 h.a ++ lane_hex 16 h.b) ≡ some h
parse_hex-lanes h v =
    ap (λ (x : ℕ). parse_hex 0 (record { a = x; b = 0 }) (lane_hex 16 h.a ++ lane_hex 16 h.b)) first
    ∙ parse_hex-lane_a 16 0 h.a 0 _ (omega arith) v.lane_a
    ∙ rw (← append-nil (lane_hex 16 h.b)) (
        ap (λ (x : ℕ). parse_hex 16 (record { a = h.a; b = x }) (lane_hex 16 h.b ++ [])) second
        ∙ parse_hex-lane_b 16 16 h.a h.b [] (omega arith) v.lane_b
        ∙ (unfold parse_hex in refl))
  where
    first : ◌≡◌ {A = ℕ} 0 (h.a / 16 ^ 16)
    first = omega (arith, v.lane_a)

    second : ◌≡◌ {A = ℕ} 0 (h.b / 16 ^ 16)
    second = omega (arith, v.lane_b)

-- Printing a hash of two 64-bit lanes and reading the 32 digits gives the hash back.
pub ref_hash_parse-ref_hash_hex :
    (h : RefHash) → IsHash h → ref_hash_parse (ref_hash_hex h) ≡ some h
unfolding ref_hash_parse ref_hash_hex
ref_hash_parse-ref_hash_hex h v = parse_hex-lanes h v

-- The content hash of any text survives the trip through its hex form in a patch file.
pub ref_hash_parse-ref_hash :
    (s : Bytes) → ref_hash_parse (ref_hash_hex (ref_hash s)) ≡ some (ref_hash s)
ref_hash_parse-ref_hash s = ref_hash_parse-ref_hash_hex _ (ref_hash-IsHash s)
