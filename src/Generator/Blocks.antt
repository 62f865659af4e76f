-- ===== src/Generator/Blocks.antt =====
-- The parser of patch.cpp on the lines of one change.
use phpatcher.Base.Results.{◌>>=◌}
use phpatcher.Base.{
  ◌==◌, if◌then◌else◌, Bool-cases, Bytes, codes, equal, is_empty, All, Result, ok, bind_assoc, Bool,
  true, false, List, [], ◌∷◌, ◌++◌, map, append-nil, append_assoc, inl, inr, ◌≡◌, refl, sym, ap,
  fun_ext, ◌∙◌,
}
use phpatcher.Bundle.{Parser, input_line, step, run}
use phpatcher.Directive.{parse_ed_input_piece}
use phpatcher.Ed.{EdPiece, EdCommand, empty_command}
use phpatcher.Generator.{Change, block_text, address, emit_change}
use phpatcher.Number.Print.{to_string}
use phpatcher.PatchSet.{Entry}
use phpatcher.Text.{newline}
use phpatcher.Text.Lines.{terminated}

-- The lines that `emit_change` writes.
abbrev pub change_lines : Change → List Bytes
change_lines c =
    if c.old_count == 0
    then (to_string c.append_after ++ codes "a") ∷ (c.added ++ codes "." ∷ [])
    else if is_empty c.added
    then (address c ++ codes "d") ∷ []
    else (address c ++ codes "c") ∷ (c.added ++ codes "." ∷ [])

pub terminated-append :
    (xs ys : List Bytes) → terminated (xs ++ ys) ≡ terminated xs ++ terminated ys
terminated-append [] ys = refl
terminated-append (x ∷ xs) ys =
    ap (λ (t : Bytes). x ++ newline ∷ t) (terminated-append xs ys)
    ∙ sym (append_assoc x (newline ∷ terminated xs) (terminated ys))

-- A line with its newline in front of a block.
block-terminated :
    (head : Bytes) (added : List Bytes)
    → head ++ newline ∷ block_text added ≡ terminated (head ∷ (added ++ codes "." ∷ []))
unfolding block_text
block-terminated head added =
    ap (λ (t : Bytes). head ++ newline ∷ t) (sym (terminated-append added (codes "." ∷ [])))

pub emit_change-terminated : (c : Change) → emit_change c ≡ terminated (change_lines c)
unfolding emit_change
emit_change-terminated c = elim (Bool-cases (c.old_count == 0)) [
  | inl e ↦ rw e (
      sym (append_assoc (to_string c.append_after) (b'a' ∷ []) (newline ∷ block_text c.added))
      ∙ block-terminated (to_string c.append_after ++ b'a' ∷ []) c.added)
  | inr e ↦ elim (Bool-cases (is_empty c.added)) [
    | inl f ↦ rw (e, f) (sym (append_assoc (address c) (b'd' ∷ []) (newline ∷ [])))
    | inr f ↦
        rw (e, f)
          (sym (append_assoc (address c) (b'c' ∷ []) (newline ∷ block_text c.added))
            ∙ block-terminated (address c ++ b'c' ∷ []) c.added)
  ]
]

module _ (canon : Bytes → Bytes) where
  -- Between two commands of a section.
  abbrev pub ready : List Entry → Bytes → Bool → List EdCommand → Parser
  ready index key creates commands = record {
    index = index;
    current = record { commands = commands; creates = creates };
    current_key = key;
    have_current = true;
    pending = empty_command;
    in_input = false;
  }

  -- Inside the block of a command.
  abbrev pub inside : List Entry → Bytes → Bool → List EdCommand → EdCommand → Parser
  inside index key creates commands pending = record (ready index key creates commands) {
    pending = pending;
    in_input = true;
  }

  pub run-append :
      (p : Parser) (xs ys : List Bytes)
      → run canon p (xs ++ ys) ≡ run canon p xs >>= λ q. run canon q ys
  unfolding run
  run-append p [] ys = refl
  run-append p (x ∷ xs) ys =
      ap (λ (k : Parser → Result Bytes Parser). step canon p x >>= k)
        (fun_ext (λ q. run-append q xs ys))
      ∙ sym (bind_assoc (step canon p x) (λ q. run canon q xs) (λ q. run canon q ys))

  pub run_block :
      (index : List Entry) (key : Bytes) (creates : Bool) (commands : List EdCommand)
      (pending : EdCommand) (added : List Bytes)
      → All (λ l. equal l (codes ".") ≡ false) added
      → run canon (inside index key creates commands pending) (added ++ codes "." ∷ [])
        ≡ ok (
            ready index key creates (
              commands
              ++ record pending { input = pending.input ++ map parse_ed_input_piece added } ∷ []))
  unfolding run step input_line
  run_block index key creates commands pending [] _ = unfold equal in rw append-nil refl
  run_block index key creates commands pending (l ∷ added) (no_end, rest) =
      let grown = pending.input ++ parse_ed_input_piece l ∷ [] in
      rw no_end (
        run_block index key creates commands (record pending { input = grown }) added rest
        ∙ ap
            (λ (input : List EdPiece).
              ok (ready index key creates (commands ++ record pending { input = input } ∷ [])))
            (append_assoc pending.input (parse_ed_input_piece l ∷ [])
              (map parse_ed_input_piece added)))
