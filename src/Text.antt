-- ===== src/Text.antt =====
-- patch.cpp, lines 40 to 94 and 237 to 239: blanks, `split_lines`, `join_lines`, trimming. A text is
-- the list of its bytes; a position in a text is the text that is left from there.
pub mod Lines
pub mod Trim
use phpatcher.Base.{
  ℕ, ◌+◌, Bool, true, false, not, ◌&&◌, ◌||◌, List, [], ◌∷◌, ◌++◌, Option, none, some, ◌≡◌, refl,
  Bytes, codes, is_empty, leb, ◌==◌, if◌then◌else◌,
}

abbrev pub newline : ℕ
newline = b'\n'

unfoldable pub is_digit : ℕ → Bool
is_digit c = leb b'0' c && leb c b'9'

unfoldable pub is_blank : ℕ → Bool
is_blank c = c == b' ' || c == b'\t' || c == b'\r'

-- The loop over the content: the lines that end, and the bytes from `start` on behind the last of
-- them. `cur` holds the bytes from `start` to `i`.
unfoldable pub scan_lines : Bytes → Bytes → List Bytes × Bytes
scan_lines cur [] = ([], cur)
scan_lines cur (c ∷ s) = elim (c == newline) [
  | true ↦ let (lines, last) = scan_lines [] s in (cur ∷ lines, last)
  | false ↦ scan_lines (cur ++ c ∷ []) s
]

-- The lines, and `ends_with_nl`.
unfoldable pub split_lines : Bytes → List Bytes × Bool
unfolding scan_lines
split_lines content =
    let (lines, last) = scan_lines [] content in
    if not (is_empty last) then (lines ++ last ∷ [], false) else (lines, not (is_empty content))

-- A newline stands behind every line but the last, and behind that if `trailing_newline`.
unfoldable pub join_lines : List Bytes → Bool → Bytes
join_lines [] trailing_newline = []
join_lines (l ∷ []) trailing_newline = l ++ (if trailing_newline then newline ∷ [] else [])
join_lines (l ∷ m ∷ ls) trailing_newline = l ++ newline ∷ join_lines (m ∷ ls) trailing_newline

-- The text up to its last byte that is no blank.
unfoldable pub rtrim : Bytes → Bytes
rtrim [] = []
rtrim (c ∷ s) = let rest = rtrim s in if is_empty rest && is_blank c then [] else c ∷ rest

-- `find_first_not_of` and `remove_prefix`: the text from the first byte that fails the test.
unfoldable pub drop_while : (ℕ → Bool) → Bytes → Bytes
drop_while test [] = []
drop_while test (c ∷ s) = if test c then drop_while test s else c ∷ s

unfoldable pub trim_blanks : Bytes → Bytes
unfolding drop_while rtrim is_blank
trim_blanks s = rtrim (drop_while is_blank s)

unfoldable pub is_space : ℕ → Bool
is_space c = c == b' ' || c == b'\t'

unfoldable pub skip_blanks : Bytes → Bytes
unfolding drop_while is_space
skip_blanks = drop_while is_space

-- `line.substr(0, p.size()) == p`: on a match, what stands behind it.
unfoldable pub after_prefix : Bytes → Bytes → Option Bytes
after_prefix [] s = some s
after_prefix (p ∷ ps) [] = none
after_prefix (p ∷ ps) (c ∷ s) = if p == c then after_prefix ps s else none

split_lines_unterminated : split_lines (codes "a\n\nb") ≡ (codes "a" ∷ [] ∷ codes "b" ∷ [], false)
unfolding split_lines
split_lines_unterminated = refl

split_lines_terminated : split_lines (codes "a\n") ≡ (codes "a" ∷ [], true)
unfolding split_lines
split_lines_terminated = refl

split_lines_empty : split_lines [] ≡ ([], false)
unfolding split_lines
split_lines_empty = refl

trim_blanks_both : trim_blanks (codes " \ta b \r") ≡ codes "a b"
unfolding trim_blanks
trim_blanks_both = refl
