-- ===== src/Generator.antt =====
-- tools/changes.cpp, lines 353 to 442 and 522 to 552, and `trim` of tools/matcher_core.hpp (lines 49
-- to 58): the text that the generator writes. What goes to the stream is the value of the function.
-- `Corpus::line` reads through a map of loaded files: here a corpus is what that map holds, by the
-- file's id, and `split_lines` (lines 203 to 216) is `split_corpus_lines`, the same code.
pub mod Quote
pub mod Paddings
pub mod References
pub mod Resolution
pub mod Commands
pub mod Blocks
pub mod Changes
pub mod Sections
pub mod Texts
pub mod Bundles
pub mod Added
pub mod Emitter
use phpatcher.Base.Options.{◌>>=◌}
use phpatcher.Base.{
  leb, ◌==◌, if◌then◌else◌, Bytes, codes, length, take, drop, get_elem?, is_empty, ℕ, zero, suc,
  ◌+◌, ◌-◌, ◌%◌, ◌^◌, Bool, ◌&&◌, ◌||◌, List, [], ◌∷◌, ◌++◌, Option, none, some,
}
use phpatcher.Number.Print.{to_string}
use phpatcher.RefHash.{ref_hash, ref_hash_hex}
use phpatcher.Text.{newline, drop_while}
use phpatcher.Text.Lines.{terminated}

abbrev pub Corpus : Type 0
Corpus = ℕ → Option (List Bytes)

line_at : List Bytes → ℕ → Option Bytes
line_at lines zero = none
line_at lines (suc i) = get_elem? lines i

-- `Corpus::line`, for the ids of the files of the index. On any other id `files_.at` throws, and the
-- tool ends; a corpus says nothing of that.
unfoldable pub corpus_line : Corpus → ℕ → ℕ → Option Bytes
unfolding line_at
corpus_line corpus file_id lineno = corpus file_id >>= λ lines. line_at lines lineno

escape_ed : ℕ → Bytes
escape_ed c =
    if c == b'\\'
    then b'\\' ∷ b'\\' ∷ []
    else if c == b'"'
    then b'\\' ∷ b'"' ∷ []
    else if c == b'\t'
    then b'\\' ∷ b't' ∷ []
    else if c == b'\r'
    then b'\\' ∷ b'r' ∷ []
    else if c == b'\n'
    then b'\\' ∷ b'n' ∷ []
    else c ∷ []

unfoldable pub quote_body : Bytes → Bytes
unfolding escape_ed
quote_body [] = []
quote_body (c ∷ s) = escape_ed c ++ quote_body s

unfoldable pub quote_ed : Bytes → Bytes
unfolding quote_body
quote_ed s = b'"' ∷ (quote_body s ++ b'"' ∷ [])

-- `++ln`, on uint32_t.
abbrev pub line_after : ℕ → ℕ
line_after lineno = (lineno + 1) % 2 ^ 32

-- The loop from `lineno` while it is at most `end`: the bytes of the lines, each with a newline, and
-- their length. With `end` at the last uint32_t the counter comes to line 0, which no file has.
unfoldable pub ref_loop : Corpus → ℕ → ℕ → ℕ → ℕ → Option (Bytes × ℕ)
unfolding corpus_line
ref_loop corpus file_id zero lineno end = none
ref_loop corpus file_id (suc fuel) lineno end =
    let more = (do
      line ← corpus_line corpus file_id lineno
      (bytes, len) ← ref_loop corpus file_id fuel (line_after lineno) end
      some (line ++ newline ∷ bytes, length line + 1 + len)) in
    if leb lineno end then more else some ([], 0)

-- The fuel is one for each line of the range, and one for the test behind it.
unfoldable pub ref_bytes : Corpus → ℕ → ℕ → ℕ → Option (Bytes × ℕ)
unfolding ref_loop
ref_bytes corpus file_id begin end = ref_loop corpus file_id (end + 2 - begin) begin end

unfoldable pub guard_text : Bool → Bytes × ℕ → Bytes
guard_text hash (bytes, len) =
    if hash then codes "h:" ++ ref_hash_hex (ref_hash bytes) else codes "s:" ++ to_string len

-- `none` for the empty string.
unfoldable pub make_guard : Corpus → Bool → ℕ → ℕ → ℕ → Option Bytes
unfolding ref_bytes guard_text
make_guard corpus hash file_id begin end =
    ref_bytes corpus file_id begin end >>= λ r. some (guard_text hash r)

-- `match::trim`.
unfoldable pub is_ws : ℕ → Bool
is_ws c = c == b' ' || c == b'\t' || c == b'\r' || c == 12 || c == 11

unfoldable pub trim_end : Bytes → Bytes
trim_end [] = []
trim_end (c ∷ s) = let rest = trim_end s in if is_empty rest && is_ws c then [] else c ∷ rest

unfoldable pub trim : Bytes → Bytes
unfolding trim_end is_ws drop_while
trim s = trim_end (drop_while is_ws s)

-- The paddings of a line of the block around the core of a line of the corpus.
unfoldable pub trim_pad_for : Bytes → Bytes → Option (Bytes × Bytes)
unfolding trim
trim_pad_for src dst =
    let off = length dst - length (drop_while is_ws dst) in
    if is_empty (trim src) || is_empty (trim dst)
    then none
    else some (take off dst, drop (off + length (trim dst)) dst)

-- The line of a reference, up to its newline; `pads` where it is to be trimmed and padded.
unfoldable pub pads_text : Option (Bytes × Bytes) → Bytes
pads_text none = []
pads_text (some (lpad, rpad)) = b' ' ∷ (quote_ed lpad ++ b' ' ∷ quote_ed rpad)

unfoldable pub ref_line : Bytes → ℕ → ℕ → Option (Bytes × Bytes) → Bytes → Bytes
unfolding pads_text
ref_line path begin end pads guard =
    codes "r "
    ++ (quote_ed path
        ++ b' '
          ∷ (to_string begin
              ++ b' ' ∷ (to_string end ++ (pads_text pads ++ (codes " # " ++ guard)))))

unfoldable pub emit_ref :
    Corpus → (ℕ → Bytes) → Bool → ℕ → ℕ → ℕ → Option (Bytes × Bytes) → Option Bytes
unfolding ref_line make_guard
emit_ref corpus file hash file_id begin end pads =
    make_guard corpus hash file_id begin end >>= λ guard.
    some (ref_line (file file_id) begin end pads guard)

-- A change of a file: `old_count` lines from `old_start` on give way to `added`; without any, `added`
-- goes behind line `append_after`. The three are int64_t line numbers and counts, never negative.
pub record Change : Type 0 where
  pub old_start : ℕ
  pub old_count : ℕ
  pub append_after : ℕ
  pub added : List Bytes

-- `emit_added_plain`, and the `.` behind it.
unfoldable pub block_text : List Bytes → Bytes
block_text added = terminated added ++ codes ".\n"

-- The lines that a change takes away.
unfoldable pub address : Change → Bytes
address c =
    if c.old_count == 1
    then to_string c.old_start
    else to_string c.old_start ++ b',' ∷ to_string (c.old_start + c.old_count - 1)

-- `emit_change`, without a corpus.
unfoldable pub emit_change : Change → Bytes
unfolding block_text address
emit_change c =
    if c.old_count == 0
    then to_string c.append_after ++ (codes "a\n" ++ block_text c.added)
    else if is_empty c.added
    then address c ++ codes "d\n"
    else address c ++ (codes "c\n" ++ block_text c.added)

-- `emit_newfile`, without a corpus.
unfoldable pub emit_newfile : Bytes → List Bytes → Bytes
unfolding block_text
emit_newfile path lines = codes "# newfile: " ++ (path ++ newline ∷ block_text lines)

-- What the loop of `main` over the deltas writes for a file: its path, and its changes or its lines.
pub data Section : Type 0 where
  modified : Bytes → List Change → Section
  added_file : Bytes → List Bytes → Section

-- The loop from the last change to the first.
unfoldable pub emit_reversed : List Change → Bytes
unfolding emit_change
emit_reversed [] = []
emit_reversed (c ∷ cs) = emit_reversed cs ++ emit_change c

-- Without changes nothing is written.
unfoldable pub emit_section : Section → Bytes
unfolding emit_reversed emit_newfile
emit_section (modified path []) = []
emit_section (modified path (c ∷ cs)) =
    codes "# file: " ++ (path ++ newline ∷ emit_reversed (c ∷ cs))
emit_section (added_file path lines) = emit_newfile path lines

unfoldable pub emit_sections : List Section → Bytes
unfolding emit_section
emit_sections [] = []
emit_sections (s ∷ ss) = emit_section s ++ emit_sections ss

-- The head of the bundle, for the options `base` and `target`, and the sections.
unfoldable pub emit_bundle : Bytes → Bytes → List Section → Bytes
unfolding emit_sections
emit_bundle origin target sections =
    codes "# phpatcher-ed v1\n"
    ++ (codes "# Generated by tools/phpatcher-changes from changes vs "
        ++ (origin
            ++ ((if is_empty target then [] else codes " to " ++ target)
                ++ (codes ".\n" ++ emit_sections sections))))
