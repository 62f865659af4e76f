-- ===== src/Tests/Texts.antt =====
-- Lines, numbers and hashes at concrete inputs.
use phpatcher.Base.{Bytes, codes, All, ◌≤◌, [], ◌++◌, ◌≢◌, some, ◌≡◌, refl, arith}
use phpatcher.Number.{int64_max, read_uint, parse_decimal_full}
use phpatcher.Number.Decimal.{IsDigit, value, read_uint_sound, read_uint_complete}
use phpatcher.Number.Print.{to_string, read_uint-to_string, parse_decimal_full-to_string}
use phpatcher.RefHash.{RefHash, ref_hash_hex, ref_hash_parse}
use phpatcher.RefHash.Hex.{ref_hash_parse-ref_hash_hex}
use phpatcher.Text.{is_digit, split_lines, join_lines}
use phpatcher.Text.Lines.{join_lines-split_lines}
use phpatcher.Text.Trim.{HeadFails}

abbrev crlf_text : Bytes
crlf_text = codes "a\r\n\nb"

join_lines-split_lines_example :
    join_lines (split_lines crlf_text).0 (split_lines crlf_text).1 ≡ crlf_text
join_lines-split_lines_example = join_lines-split_lines crlf_text

read_twelve : read_uint (codes "12,5c") ≡ some (12, codes ",5c")
unfolding read_uint
read_twelve = refl

read_uint_sound_example :
    (ds : Bytes) × (codes "12,5c" ≡ ds ++ codes ",5c")
    × (ds ≢ [])
    × All IsDigit ds
    × (12 ≡ value 0 ds)
    × (12 ≤ int64_max)
    × HeadFails is_digit (codes ",5c")
read_uint_sound_example = read_uint_sound (codes "12,5c") read_twelve

comma_stops : HeadFails is_digit (codes ",5c")
unfolding is_digit
comma_stops = refl

read_uint_complete_example :
    read_uint (codes "12" ++ codes ",5c") ≡ some (value 0 (codes "12"), codes ",5c")
read_uint_complete_example =
    read_uint_complete (codes "12") (codes ",5c") (cc) (omega arith) comma_stops (omega arith)

read_uint-to_string_example : read_uint (to_string 120 ++ codes ",5c") ≡ some (120, codes ",5c")
read_uint-to_string_example = read_uint-to_string 120 (codes ",5c") (omega arith) comma_stops

parse_decimal_full-to_string_example : parse_decimal_full (to_string 120) ≡ some 120
parse_decimal_full-to_string_example = parse_decimal_full-to_string 120 (omega arith)

abbrev small_hash : RefHash
small_hash = record { a = 0xdeadbeef; b = 17 }

ref_hash_parse-ref_hash_hex_example : ref_hash_parse (ref_hash_hex small_hash) ≡ some small_hash
ref_hash_parse-ref_hash_hex_example = ref_hash_parse-ref_hash_hex small_hash (omega arith)
