-- ===== src/RefHash.antt =====
-- patch.hpp, lines 22 to 74: the 128-bit content hash in two uint64_t lanes, and its 32 hex digits.
pub mod Hex
use phpatcher.Base.Options.{◌>>=◌}
use phpatcher.Base.{
  ltb, leb, ◌==◌, if◌then◌else◌, Bytes, length, ℕ, zero, suc, ◌+◌, ◌-◌, ◌*◌, ◌/◌, ◌%◌, ◌^◌, bit_xor,
  Bool, not, ◌&&◌, [], ◌∷◌, ◌++◌, Option, none, some, ◌≡◌, refl,
}

abbrev pub u64_mod : ℕ
u64_mod = 2 ^ 64

-- `a` and `b` are uint64_t.
pub record RefHash : Type 0 where
  pub a : ℕ
  pub b : ℕ

abbrev fnv_prime : ℕ
fnv_prime = 1099511628211

abbrev golden : ℕ
golden = 0x9E3779B97F4A7C15

-- One round of both lanes; the products wrap at 2 ^ 64.
unfoldable pub mix : RefHash → ℕ → RefHash
mix h c = record { a = bit_xor h.a c * fnv_prime % u64_mod; b = bit_xor h.b c * golden % u64_mod }

mix_all : RefHash → Bytes → RefHash
mix_all h [] = h
mix_all h (c ∷ s) = mix_all (mix h c) s

unfoldable pub ref_hash : Bytes → RefHash
unfolding mix mix_all
ref_hash s =
    mix (mix_all (record { a = 14695981039346656037; b = 1469598103934665603 }) s)
      (length s % u64_mod)

-- `operator==`.
unfoldable pub same_hash : RefHash → RefHash → Bool
same_hash x y = x.a == y.a && x.b == y.b

-- "0123456789abcdef"
unfoldable pub hex_digit : ℕ → ℕ
hex_digit v = if ltb v 10 then b'0' + v else b'a' + (v - 10)

-- The low `n` nibbles of a lane, highest first: the loop writes nibble `i` at `15 - i`.
unfoldable pub lane_hex : ℕ → ℕ → Bytes
lane_hex zero h = []
lane_hex (suc n) h = hex_digit (h / 16 ^ n % 16) ∷ lane_hex n h

unfoldable pub ref_hash_hex : RefHash → Bytes
unfolding hex_digit lane_hex
ref_hash_hex h = lane_hex 16 h.a ++ lane_hex 16 h.b

unfoldable pub hex_value : ℕ → Option ℕ
hex_value c =
    if leb b'0' c && leb c b'9'
    then some (c - b'0')
    else if leb b'a' c && leb c b'f'
    then some (c - b'a' + 10)
    else if leb b'A' c && leb c b'F'
    then some (c - b'A' + 10)
    else none

-- `(a << 4) | v`: the shift wraps at 2 ^ 64 and leaves the low four bits clear, so `|` adds.
abbrev shift_in : ℕ → ℕ → ℕ
shift_in a v = a * 16 % u64_mod + v

-- The loop, with its counter; the first 16 digits go to lane `a`.
parse_hex : ℕ → RefHash → Bytes → Option RefHash
parse_hex i h [] = some h
parse_hex i h (c ∷ s) = do
  v ← hex_value c
  parse_hex (i + 1)
      (if ltb i 16 then record h { a = shift_in h.a v } else record h { b = shift_in h.b v }) s

unfoldable pub ref_hash_parse : Bytes → Option RefHash
unfolding hex_value parse_hex
ref_hash_parse hex =
    if not (length hex == 32) then none else parse_hex 0 (record { a = 0; b = 0 }) hex

hex_of_empty : ref_hash_parse (ref_hash_hex (ref_hash [])) ≡ some (ref_hash [])
unfolding ref_hash_parse ref_hash_hex ref_hash
hex_of_empty = refl
