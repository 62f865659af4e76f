-- ===== src/Apply.antt =====
-- patch.cpp, lines 300 to 442: expanding an input block, the order check, and applying a script.
-- An error is its message, as in the source.
pub mod Splices
pub mod Plan
pub mod Simultaneous
use phpatcher.Base.Results.{◌>>=◌}
use phpatcher.Base.{
  ltb, leb, if◌then◌else◌, Bytes, codes, length, take, drop, is_empty, Result, ok, err, ℕ, ◌+◌, ◌-◌,
  min, true, ◌||◌, List, [], ◌∷◌, ◌++◌, map, Option, none, some,
}
use phpatcher.Ed.{
  exact, trim_pad, EdRef, EdPiece, literal, reference, Kind, delete, change, append, insert,
  EdCommand, FilePatch,
}
use phpatcher.Number.{int64_max}
use phpatcher.Text.{split_lines, join_lines, trim_blanks}

-- What the caller injects. `none` is an empty `std::function`.
abbrev pub RefResolver : Type 0
RefResolver = Option (EdRef → Result Bytes (List Bytes))

-- A resolved line as it goes into the file.
unfoldable pub padded : EdRef → Bytes → Bytes
padded ref l = elim ref.transform [ exact ↦ l | trim_pad ↦ ref.lpad ++ (trim_blanks l ++ ref.rpad) ]

unfoldable pub resolved_lines : RefResolver → EdRef → Result Bytes (List Bytes)
unfolding padded
resolved_lines none ref = err (codes "patch references corpus lines but no resolver is available")
resolved_lines (some resolve) ref = do lines ← resolve ref; ok (map (padded ref) lines)

unfoldable pub build_input : RefResolver → List EdPiece → Result Bytes (List Bytes)
unfolding resolved_lines
build_input resolve [] = ok []
build_input resolve (literal l ∷ pieces) = do rest ← build_input resolve pieces; ok (l ∷ rest)
build_input resolve (reference ref ∷ pieces) = do
  lines ← resolved_lines resolve ref
  rest ← build_input resolve pieces
  ok (lines ++ rest)

-- The highest original line that a command needs in place.
unfoldable pub addressed_top : Kind → EdCommand → ℕ
addressed_top delete c = c.end
addressed_top change c = c.end
addressed_top append c = c.start
addressed_top insert c = c.start

-- The lowest original line that it consumes or shifts.
unfoldable pub affected_low : Kind → EdCommand → ℕ
affected_low append c = c.start + 1
affected_low _ c = c.start

abbrev order_error : Bytes
order_error = codes "ed commands must be in descending, non-overlapping line order"

-- The loop over the commands, with `barrier`.
unfoldable pub check_order : ℕ → List EdCommand → Result Bytes (Unit {0})
unfolding addressed_top affected_low
check_order barrier [] = ok tt
check_order barrier (c ∷ cs) =
    if leb barrier (addressed_top c.kind c)
    then err order_error
    else check_order (min (affected_low c.kind c) barrier) cs

unfoldable pub validate_command_order : FilePatch → Result Bytes (Unit {0})
unfolding check_order
validate_command_order fp = check_order int64_max fp.commands

-- `lines.erase` on the range from `a` up to `b`, and `lines.insert` before `a`.
abbrev pub erase : ℕ → ℕ → List Bytes → List Bytes
erase a b lines = take a lines ++ drop b lines

abbrev pub insert_at : ℕ → List Bytes → List Bytes → List Bytes
insert_at a ins lines = take a lines ++ (ins ++ drop a lines)

-- The body of the loop, a case for each kind. `c.start < 0` cannot be: an address is not negative.
unfoldable pub apply_kind : RefResolver → Kind → EdCommand → List Bytes → Result Bytes (List Bytes)
apply_kind resolve delete c lines =
    if ltb c.start 1 || ltb c.end c.start || ltb (length lines) c.end
    then err (codes "ed delete out of range")
    else ok (erase (c.start - 1) c.end lines)
apply_kind resolve change c lines =
    if ltb c.start 1 || ltb c.end c.start || ltb (length lines) c.end
    then err (codes "ed change out of range")
    else do
      ins ← build_input resolve c.input
      ok (insert_at (c.start - 1) ins (erase (c.start - 1) c.end lines))
apply_kind resolve append c lines =
    if ltb (length lines) c.start
    then err (codes "ed append out of range")
    else do ins ← build_input resolve c.input; ok (insert_at c.start ins lines)
apply_kind resolve insert c lines =
    if ltb c.start 1 || ltb (length lines + 1) c.start
    then err (codes "ed insert out of range")
    else do ins ← build_input resolve c.input; ok (insert_at (c.start - 1) ins lines)

unfoldable pub apply_commands :
    RefResolver → List EdCommand → List Bytes → Result Bytes (List Bytes)
unfolding apply_kind
apply_commands resolve [] lines = ok lines
apply_commands resolve (c ∷ cs) lines = do
  lines' ← apply_kind resolve c.kind c lines
  apply_commands resolve cs lines'

unfoldable pub apply_ed_script : RefResolver → FilePatch → Bytes → Result Bytes Bytes
unfolding validate_command_order apply_commands
apply_ed_script resolve fp original = do
  _ ← validate_command_order fp
  lines ← apply_commands resolve fp.commands (split_lines original).0
  ok (join_lines lines (if is_empty original then true else (split_lines original).1))
