-- ===== src/Generator/Changes.antt =====
-- The parser of patch.cpp on the text of the changes of one file.
use phpatcher.Base.{
  ◌==◌, if◌then◌else◌, Bool-cases, Bytes, codes, equal, is_empty, All, ok, ℕ, ◌<◌, Bool, true,
  false, ◌&&◌, List, [], ◌∷◌, ◌++◌, map, append_assoc, ◌≢◌, inl, inr, none, some, ◌≡◌, refl, ap,
  arith,
}
use phpatcher.Bundle.{Parser, command_line, plain_line, header_line, step, run}
use phpatcher.Directive.{parse_ed_command, parse_ed_input_piece}
use phpatcher.Ed.{EdCommand}
use phpatcher.Generator.{Change, address}
use phpatcher.Generator.Blocks.{change_lines, ready, inside, run_block}
use phpatcher.Generator.Commands.{command_for, Writable, parse_append, parse_delete, parse_change}
use phpatcher.Number.Decimal.{IsDigit}
use phpatcher.Number.Print.{to_string, to_string-digits}
use phpatcher.PatchSet.{Entry}
use phpatcher.Text.{is_blank, rtrim, drop_while, after_prefix}

digits-head :
    (ds rest : Bytes)
    → ds ≢ []
    → All IsDigit ds
    → (d : ℕ) × (s : Bytes) × (ds ++ rest ≡ d ∷ s) × IsDigit d
digits-head [] rest some_left _ = absurd (some_left refl)
digits-head (d ∷ ds) rest _ (h, _) = (d, ds ++ rest, refl, h)

-- The address of a change begins with a digit.
address-digits :
    (c : Change) (rest : Bytes) → (d : ℕ) × (s : Bytes) × (address c ++ rest ≡ d ∷ s) × IsDigit d
unfolding address
address-digits c rest =
    let (some_left, digits) = to_string-digits c.old_start in
    elim (Bool-cases (c.old_count == 1)) [
      | inl e ↦ rw e (digits-head (to_string c.old_start) rest some_left digits)
      | inr e ↦ rw e (
          rw (append_assoc (to_string c.old_start))
            (digits-head (to_string c.old_start) _ some_left digits))
    ]

and_false : (b : Bool) → (b && false) ≡ false
and_false true = refl
and_false false = refl

-- A line that begins with a digit is no header, no comment, no blank line and none of `w` and `q`.
module _ (d : ℕ) (s : Bytes) (h : IsDigit d) where
  no_header : (p : Bytes) → after_prefix (b'#' ∷ p) (d ∷ s) ≡ none
  unfolding after_prefix
  no_header p = ground arith

  no_blank : is_blank d ≡ false
  unfolding is_blank
  no_blank = ground arith

  no_letter : (c : ℕ) (t : Bytes) → 64 < c → equal (d ∷ t) (c ∷ []) ≡ false
  unfolding equal
  no_letter c t high = ground arith

  drop_while-digit : drop_while is_blank (d ∷ s) ≡ d ∷ s
  unfolding drop_while
  drop_while-digit = rw no_blank refl

  rtrim-digit : rtrim (d ∷ s) ≡ d ∷ rtrim s
  unfolding rtrim
  rtrim-digit =
      let kept : (is_empty (rtrim s) && is_blank d) ≡ false =
        rw no_blank (and_false (is_empty (rtrim s))) in
      ap (λ (b : Bool). if b then [] else d ∷ rtrim s) kept

  plain_line-digit : (p : Parser) → plain_line p (d ∷ s) ≡ command_line p (d ∷ s)
  unfolding plain_line
  plain_line-digit p =
      let e : (d == b'#') ≡ false = ground arith in
      rw
        (
          drop_while-digit,
          plain_line,
          e,
          rtrim-digit,
          no_letter b'w' (rtrim s) (omega arith),
          no_letter b'q' (rtrim s) (omega arith),
        )
        refl

  header_line-digit :
      (canon : Bytes → Bytes) (p : Parser) → header_line canon p (d ∷ s) ≡ command_line p (d ∷ s)
  unfolding header_line
  header_line-digit canon p =
      rw (no_header (codes " file:"), no_header (codes " newfile:"), header_line)
        (plain_line-digit p)

module _ (canon : Bytes → Bytes) (index : List Entry) (key : Bytes) (creates : Bool) where
  abbrev here : List EdCommand → Parser
  here = ready canon index key creates

  -- A line that is read as a command, behind a header.
  command_step :
      (commands : List EdCommand) (d : ℕ) (s : Bytes) (cmd : EdCommand) (needs_input : Bool)
      → IsDigit d
      → parse_ed_command (d ∷ s) ≡ some (cmd, needs_input)
      → step canon (here commands) (d ∷ s)
        ≡ ok (
            if needs_input
            then inside canon index key creates commands cmd
            else here (commands ++ cmd ∷ []))
  unfolding step command_line
  command_step commands d s cmd needs_input digit read =
      rw (header_line-digit d s digit canon (here commands), read) refl

  -- A command without a block, and one with a block.
  run_command :
      (commands : List EdCommand) (line : Bytes) (cmd : EdCommand)
      → ((d : ℕ) × (s : Bytes) × (line ≡ d ∷ s) × IsDigit d)
      → parse_ed_command line ≡ some (cmd, false)
      → run canon (here commands) (line ∷ []) ≡ ok (here (commands ++ cmd ∷ []))
  unfolding run
  run_command commands line cmd (d, s, shape, digit) read =
      rw (shape, command_step commands d s cmd false digit (rw shape at read)) refl

  run_command_block :
      (commands : List EdCommand) (line : Bytes) (cmd : EdCommand) (added : List Bytes)
      → ((d : ℕ) × (s : Bytes) × (line ≡ d ∷ s) × IsDigit d)
      → parse_ed_command line ≡ some (cmd, true)
      → All (λ l. equal l (codes ".") ≡ false) added
      → run canon (here commands) (line ∷ (added ++ codes "." ∷ []))
        ≡ ok (
            here
              (commands ++ record cmd { input = cmd.input ++ map parse_ed_input_piece added } ∷ []))
  unfolding run
  run_command_block commands line cmd added (d, s, shape, digit) read no_end =
      rw (shape, command_step commands d s cmd true digit (rw shape at read))
        (run_block canon index key creates commands cmd added no_end)

  -- The lines of a change are read as its command.
  pub run-change_lines :
      (commands : List EdCommand) (c : Change)
      → Writable c
      → run canon (here commands) (change_lines c) ≡ ok (here (commands ++ command_for c ∷ []))
  run-change_lines commands c w = elim (Bool-cases (c.old_count == 0)) [
    | inl e ↦
        let (some_left, digits) = to_string-digits c.append_after in
        rw e (
          run_command_block commands (to_string c.append_after ++ codes "a") _ c.added
            (digits-head (to_string c.append_after) (codes "a") some_left digits) (parse_append c w)
            w.no_end)
    | inr e ↦ elim (Bool-cases (is_empty c.added)) [
      | inl f ↦
          rw (e, f)
            (run_command commands (address c ++ codes "d") _ (address-digits c (codes "d"))
              (parse_delete c w e))
      | inr f ↦
          rw (e, f)
            (run_command_block commands (address c ++ codes "c") _ c.added
              (address-digits c (codes "c")) (parse_change c w e) w.no_end)
    ]
  ]
