-- ===== src/Bundle.antt =====
-- patch.cpp, `looks_like_ed_bundle` (lines 114 to 130), `PatchSet::parse` and `parse_ed_bundle` (lines
-- 548 to 666). `canonicalize` asks the operating system for the real path: it is a parameter here,
-- `canon`, already bound to its `base_dir`.
use phpatcher.Base.Results.{◌>>=◌}
use phpatcher.Base.{
  ◌==◌, if◌then◌else◌, Bytes, codes, equal, is_empty, Result, ok, err, Bool, true, false, not, ◌&&◌,
  ◌||◌, List, [], ◌∷◌, ◌++◌, none, some,
}
use phpatcher.Directive.{parse_ed_command, parse_ed_input_piece}
use phpatcher.Ed.{append, EdCommand, empty_command, FilePatch, empty_patch}
use phpatcher.PatchSet.{Entry, PatchSet, empty_set, finalize}
use phpatcher.Text.{is_blank, split_lines, rtrim, drop_while, is_space, after_prefix}

-- The first line with a byte that is no blank decides.
unfoldable pub first_line_is_magic : List Bytes → Bool
first_line_is_magic [] = false
first_line_is_magic (line ∷ lines) = elim (drop_while is_blank line) [
  | [] ↦ first_line_is_magic lines
  | c ∷ s ↦ elim (after_prefix (codes "# phpatcher-ed") (c ∷ s)) [ none ↦ false | some _ ↦ true ]
]

unfoldable pub looks_like_ed_bundle : Bytes → Bool
unfolding first_line_is_magic
looks_like_ed_bundle text = first_line_is_magic (split_lines text).0

-- The variables of `parse_ed_bundle`.
pub record Parser : Type 0 where
  pub index : List Entry
  pub current : FilePatch
  pub current_key : Bytes
  pub have_current : Bool
  pub pending : EdCommand
  pub in_input : Bool

abbrev pub initial : Parser
initial = record {
  index = [];
  current = empty_patch;
  current_key = [];
  have_current = false;
  pending = empty_command;
  in_input = false;
}

unfoldable pub flush_current : Parser → Parser
flush_current p = record p {
  index =
      if p.have_current && not (is_empty p.current.commands)
      then p.index ++ record { path = p.current_key; patch = p.current } ∷ []
      else p.index;
  current = empty_patch;
  current_key = [];
  have_current = false;
}

abbrev pub push_command : Parser → EdCommand → Parser
push_command p c = record p {
  current = record p.current { commands = p.current.commands ++ c ∷ [] };
}

-- Inside an input block: a lone `.` ends it.
unfoldable pub input_line : Parser → Bytes → Parser
input_line p line =
    if equal line (codes ".")
    then record (push_command p p.pending) { pending = empty_command; in_input = false }
    else record p {
      pending = record p.pending { input = p.pending.input ++ parse_ed_input_piece line ∷ [] };
    }

-- Outside of a block: a command, behind a header.
unfoldable pub command_line : Parser → Bytes → Result Bytes Parser
command_line p line =
    if not p.have_current
    then err (codes "ed command before any '# file:' header")
    else elim (parse_ed_command line) [
      | none ↦ err (codes "invalid ed command: " ++ line)
      | some (cmd, needs_input) ↦
          ok (
            if needs_input then record p { pending = cmd; in_input = true } else push_command p cmd)
    ]

-- Comments, blank lines and the trailing `w` and `q` are skipped.
unfoldable pub plain_line : Parser → Bytes → Result Bytes Parser
unfolding command_line
plain_line p line = elim (drop_while is_blank line) [
  | [] ↦ ok p
  | c ∷ s ↦
      if c == b'#'
      then ok p
      else if equal (rtrim (c ∷ s)) (codes "w") || equal (rtrim (c ∷ s)) (codes "q")
      then ok p
      else command_line p line
]

module _ (canon : Bytes → Bytes) where
  -- `# file:` and `# newfile:`, with the text behind them.
  unfoldable pub file_header : Parser → Bytes → Result Bytes Parser
  file_header p text = elim (drop_while is_space (rtrim text)) [
    | [] ↦ err (codes "empty '# file:' header in ed bundle")
    | c ∷ s ↦ ok (record (flush_current p) { current_key = canon (c ∷ s); have_current = true })
  ]

  unfoldable pub newfile_header : Parser → Bytes → Result Bytes Parser
  newfile_header p text = elim (drop_while is_space (rtrim text)) [
    | [] ↦ err (codes "empty '# newfile:' header in ed bundle")
    | c ∷ s ↦ ok (record (flush_current p) {
      current_key = canon (c ∷ s);
      have_current = true;
      current = record { commands = []; creates = true };
      pending = record { kind = append; start = 0; end = 0; input = [] };
      in_input = true;
    })
  ]

  unfoldable pub header_line : Parser → Bytes → Result Bytes Parser
  unfolding file_header newfile_header plain_line
  header_line p line = elim (after_prefix (codes "# file:") line) [
    | some text ↦ file_header p text
    | none ↦ elim (after_prefix (codes "# newfile:") line) [
      | some text ↦ newfile_header p text
      | none ↦ plain_line p line
    ]
  ]

  -- The body of the loop over the lines.
  unfoldable pub step : Parser → Bytes → Result Bytes Parser
  unfolding input_line header_line
  step p line = if p.in_input then ok (input_line p line) else header_line p line

  unfoldable pub run : Parser → List Bytes → Result Bytes Parser
  unfolding step
  run p [] = ok p
  run p (line ∷ lines) = step p line >>= λ q. run q lines

  -- The end of the text.
  unfoldable pub finish : Parser → Result Bytes PatchSet
  finish p =
      if p.in_input
      then err (codes "unterminated ed input block (missing '.')")
      else finalize (flush_current p).index

  unfoldable pub parse_ed_bundle : Bytes → Result Bytes PatchSet
  unfolding run finish
  parse_ed_bundle diff_text = run initial (split_lines diff_text).0 >>= finish

  unfoldable pub parse : Bytes → Result Bytes PatchSet
  unfolding parse_ed_bundle
  parse diff_text =
      if is_empty diff_text
      then ok empty_set
      else if not (looks_like_ed_bundle diff_text)
      then err (codes "unsupported patch format: expected '# phpatcher-ed'")
      else parse_ed_bundle diff_text
