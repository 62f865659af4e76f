-- ===== src/Generator/Sections.antt =====
-- The parser of patch.cpp on the sections of a bundle.
use phpatcher.Base.{
  Bytes, codes, equal, is_empty, All, ok, Bool, true, false, List, [], ◌∷◌, ◌++◌, map, append-nil,
  append_assoc, ◌≢◌, ◌≡◌, refl, sym,
}
use phpatcher.Bundle.{Parser, flush_current, file_header, newfile_header, header_line, step, run}
use phpatcher.Directive.{parse_ed_input_piece}
use phpatcher.Ed.{append, EdCommand, empty_command, FilePatch}
use phpatcher.Generator.{Change, Section, modified, added_file}
use phpatcher.Generator.Blocks.{change_lines, ready, inside, run-append, run_block}
use phpatcher.Generator.Changes.{run-change_lines}
use phpatcher.Generator.Commands.{command_for, Writable}
use phpatcher.PatchSet.{Entry}
use phpatcher.Text.{rtrim, drop_while, is_space, after_prefix}
use phpatcher.Text.Lines.{IsLine}

-- The lines of the changes of a file, from the last to the first, and the commands that they are.
abbrev pub reversed_lines : List Change → List Bytes
reversed_lines [] = []
reversed_lines (c ∷ cs) = reversed_lines cs ++ change_lines c

abbrev pub commands_for : List Change → List EdCommand
commands_for [] = []
commands_for (c ∷ cs) = commands_for cs ++ command_for c ∷ []

-- What a section is in the index: nothing, if it has no change.
abbrev pub entries_for : (Bytes → Bytes) → Section → List Entry
entries_for canon (modified path []) = []
entries_for canon (modified path (c ∷ cs)) =
    record {
      path = canon path;
      patch = record { commands = commands_for (c ∷ cs); creates = false };
    }
    ∷ []
entries_for canon (added_file path lines) =
    record {
      path = canon path;
      patch = record {
        commands =
            record { kind = append; start = 0; end = 0; input = map parse_ed_input_piece lines }
            ∷ [];
        creates = true;
      };
    }
    ∷ []

-- A path that a header can carry: without a newline, and with no blank at either end.
pub record HeaderPath (path : Bytes) : Type 0 where
  pub nonempty : path ≢ []
  pub line : IsLine path
  pub trimmed : rtrim path ≡ path
  pub starts : drop_while is_space path ≡ path

abbrev pub WritableSection : Section → Type 0
WritableSection (modified path cs) = HeaderPath path × All Writable cs
WritableSection (added_file path lines) =
    HeaderPath path × All IsLine lines × All (λ l. equal l (codes ".") ≡ false) lines

abbrev pub section_lines : Section → List Bytes
section_lines (modified path []) = []
section_lines (modified path (c ∷ cs)) = (codes "# file: " ++ path) ∷ reversed_lines (c ∷ cs)
section_lines (added_file path lines) = (codes "# newfile: " ++ path) ∷ (lines ++ codes "." ∷ [])

header_text : (path : Bytes) → HeaderPath path → drop_while is_space (rtrim (b' ' ∷ path)) ≡ path
unfolding rtrim drop_while is_space
header_text [] h = absurd (h.nonempty refl)
header_text (c ∷ s) h = rw (h.trimmed) (h.starts)

is_empty-append : (xs : List EdCommand) (y : EdCommand) → is_empty (xs ++ y ∷ []) ≡ false
is_empty-append [] y = refl
is_empty-append (x ∷ xs) y = refl

module _ (canon : Bytes → Bytes) where
  -- Outside of a block, with nothing pending.
  abbrev pub between : List Entry → FilePatch → Bytes → Bool → Parser
  between index current key have_current = record {
    index = index;
    current = current;
    current_key = key;
    have_current = have_current;
    pending = empty_command;
    in_input = false;
  }

  abbrev pub flushed : Parser → List Entry
  flushed p = (flush_current p).index

  step_file :
      (index : List Entry) (current : FilePatch) (key : Bytes) (have : Bool) (path : Bytes)
      → HeaderPath path
      → let p = between index current key have in
        step canon p (codes "# file: " ++ path) ≡ ok (ready canon (flushed p) (canon path) false [])
  unfolding step header_line after_prefix file_header flush_current
  step_file index current key have [] h = absurd (h.nonempty refl)
  step_file index current key have (c ∷ s) h =
      rw (header_text (c ∷ s) h, step, header_line, file_header) refl

  step_newfile :
      (index : List Entry) (current : FilePatch) (key : Bytes) (have : Bool) (path : Bytes)
      → HeaderPath path
      → let p = between index current key have in
        step canon p (codes "# newfile: " ++ path)
        ≡ ok (
            inside canon
              (flushed p)
              (canon path)
              true
              []
              (record { kind = append; start = 0; end = 0; input = [] }))
  unfolding step header_line after_prefix newfile_header flush_current
  step_newfile index current key have [] h = absurd (h.nonempty refl)
  step_newfile index current key have (c ∷ s) h =
      rw (header_text (c ∷ s) h, step, header_line, newfile_header) refl

  run-reversed_lines :
      (index : List Entry) (key : Bytes) (creates : Bool) (commands : List EdCommand)
      (cs : List Change)
      → All Writable cs
      → run canon (ready canon index key creates commands) (reversed_lines cs)
        ≡ ok (ready canon index key creates (commands ++ commands_for cs))
  unfolding run
  run-reversed_lines index key creates commands [] _ = rw append-nil refl
  run-reversed_lines index key creates commands (c ∷ cs) (w, ws) =
      rw
        (
          run-append canon (ready canon index key creates commands) (reversed_lines cs)
              (change_lines c),
          run-reversed_lines index key creates commands cs ws,
          run-change_lines canon index key creates (commands ++ commands_for cs) c w,
          append_assoc commands (commands_for cs) (command_for c ∷ []),
        )
        refl

  -- Where the parser stands behind some sections: outside of a block, with their entries behind those
  -- that it had.
  pub record Behind (p : Parser) (entries : List Entry) (lines : List Bytes) : Type 0 where
    pub index : List Entry
    pub current : FilePatch
    pub key : Bytes
    pub have : Bool
    pub runs : run canon p lines ≡ ok (between index current key have)
    pub adds : flushed (between index current key have) ≡ flushed p ++ entries

  pub Behind-section :
      (s : Section) (index : List Entry) (current : FilePatch) (key : Bytes) (have : Bool)
      → WritableSection s
      → Behind (between index current key have) (entries_for canon s) (section_lines s)
  unfolding run
  Behind-section (modified path []) index current key have _ = record {
    index = index;
    current = current;
    key = key;
    have = have;
    runs = refl;
    adds = sym (append-nil (flushed (between index current key have)));
  }
  Behind-section (modified path (c ∷ cs)) index current key have (h, ws) =
      let before = flushed (between index current key have) in
      record {
        index = before;
        current = record { commands = commands_for (c ∷ cs); creates = false };
        key = canon path;
        have = true;
        runs =
            rw (step_file index current key have path h)
              (run-reversed_lines before (canon path) false [] (c ∷ cs) ws);
        adds = unfold flush_current in rw (is_empty-append (commands_for cs) (command_for c)) refl;
      }
  Behind-section (added_file path lines) index current key have (h, _, no_end) =
      let before = flushed (between index current key have) in
      record {
        index = before;
        current = record {
          commands =
              record { kind = append; start = 0; end = 0; input = map parse_ed_input_piece lines }
              ∷ [];
          creates = true;
        };
        key = canon path;
        have = true;
        runs = rw (step_newfile index current key have path h) (
            run_block canon before (canon path) true []
              (record { kind = append; start = 0; end = 0; input = [] }) lines no_end);
        adds = unfold flush_current in refl;
      }
