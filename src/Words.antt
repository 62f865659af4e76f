-- ===== src/Words.antt =====
-- tools/normalizer.hpp, lines 33 to 45, and `put` of tools/indexer.cpp (lines 195 to 198): words as
-- bytes. `put` and the memcpy of the readers use the machine's own order of the bytes: here the
-- little-endian one. A word is a number below 2 ^ 16 or 2 ^ 32; a cast to it is `% 2 ^ w`.
pub mod Bits
use phpatcher.Base.{Bytes, ℕ, ◌*◌, ◌/◌, ◌%◌, ◌^◌, ◌<◌, bit_and, bit_or, [], ◌∷◌}

abbrev pub IsByte : ℕ → Type 0
IsByte b = b < 256

abbrev pub IsU16 : ℕ → Type 0
IsU16 v = v < 2 ^ 16

abbrev pub IsU32 : ℕ → Type 0
IsU32 v = v < 2 ^ 32

-- `put_u32le(buf, v)`: what is appended to the buffer.
unfoldable pub put_u32le : ℕ → Bytes
put_u32le v =
    bit_and v 0xff
    ∷ bit_and (v / 2 ^ 8) 0xff
    ∷ bit_and (v / 2 ^ 16) 0xff
    ∷ bit_and (v / 2 ^ 24) 0xff
    ∷ []

-- `get_u32le` on the four bytes behind its pointer; each shifted byte stays below 2 ^ 32.
unfoldable pub get_u32le : ℕ → ℕ → ℕ → ℕ → ℕ
get_u32le p0 p1 p2 p3 = bit_or (bit_or (bit_or p0 (p1 * 2 ^ 8)) (p2 * 2 ^ 16)) (p3 * 2 ^ 24)

-- `put<std::uint16_t>` and `put<std::uint32_t>`.
unfoldable pub put_u16 : ℕ → Bytes
put_u16 v = v % 256 ∷ v / 2 ^ 8 % 256 ∷ []

unfoldable pub put_u32 : ℕ → Bytes
put_u32 v = v % 256 ∷ v / 2 ^ 8 % 256 ∷ v / 2 ^ 16 % 256 ∷ v / 2 ^ 24 % 256 ∷ []
