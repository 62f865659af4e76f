-- ===== src/Generator/Commands.antt =====
-- `emit_change` of tools/changes.cpp against `parse_ed_command` of patch.cpp.
use phpatcher.Base.{
  ◌==◌, if◌then◌else◌, Bool-cases, codes, equal, is_empty, All, ℕ, ◌+◌, ◌-◌, ◌≤◌, true, false, [],
  ◌∷◌, ◌++◌, map, append_assoc, inl, inr, some, ◌≡◌, refl, ap, ◌∙◌, arith,
}
use phpatcher.Directive.{
  command_of, second_address, command_letter, parse_ed_command, parse_ed_input_piece,
}
use phpatcher.Ed.{delete, change, append, EdCommand}
use phpatcher.Generator.{Change, address}
use phpatcher.Number.Decimal.{read_limit}
use phpatcher.Number.Print.{to_string, read_uint-to_string}
use phpatcher.Text.{is_digit, rtrim}
use phpatcher.Text.Lines.{IsLine}

-- The command that a change is.
abbrev pub last_line : Change → ℕ
last_line c = c.old_start + c.old_count - 1

abbrev pub command_for : Change → EdCommand
command_for c =
    let input = map parse_ed_input_piece c.added in
    if c.old_count == 0
    then record { kind = append; start = c.append_after; end = c.append_after; input = input }
    else if is_empty c.added
    then record { kind = delete; start = c.old_start; end = last_line c; input = [] }
    else record { kind = change; start = c.old_start; end = last_line c; input = input }

-- What a change can be written with: line numbers that `read_uint` reads, and added lines none of
-- which is the `.` that ends a block.
pub record Writable (c : Change) : Type 0 where
  pub append_bound : c.append_after ≤ read_limit
  pub end_bound : c.old_start + c.old_count ≤ read_limit
  pub lines : All IsLine c.added
  pub no_end : All (λ l. equal l (codes ".") ≡ false) c.added

parse_one :
    (n op : ℕ)
    → n ≤ read_limit
    → (op == b',') ≡ false
    → is_digit op ≡ false
    → parse_ed_command (to_string n ++ op ∷ []) ≡ command_of op n n
unfolding parse_ed_command second_address command_letter rtrim
parse_one n op fits no_comma no_digit =
    rw (read_uint-to_string n (op ∷ []) fits no_digit, no_comma) refl

parse_two :
    (m n op : ℕ)
    → m ≤ read_limit
    → n ≤ read_limit
    → is_digit op ≡ false
    → parse_ed_command (to_string m ++ b',' ∷ (to_string n ++ op ∷ [])) ≡ command_of op m n
unfolding parse_ed_command second_address command_letter rtrim
parse_two m n op fits fits' no_digit =
    rw
      (
        read_uint-to_string m (b',' ∷ (to_string n ++ op ∷ [])) fits (unfold is_digit in refl),
        read_uint-to_string n (op ∷ []) fits' no_digit,
      )
      refl

parse_address :
    (c : Change) (op : ℕ)
    → Writable c
    → (c.old_count == 0) ≡ false
    → (op == b',') ≡ false
    → is_digit op ≡ false
    → parse_ed_command (address c ++ op ∷ []) ≡ command_of op c.old_start (last_line c)
unfolding address
parse_address c op w some_lines no_comma no_digit = elim (Bool-cases (c.old_count == 1)) [
  | inl one ↦
      let e : last_line c ≡ c.old_start = ground arith in
      rw (one, e) (parse_one c.old_start op (omega (arith, w.end_bound)) no_comma no_digit)
  | inr more ↦ rw more (
      ap parse_ed_command
        (append_assoc (to_string c.old_start) (b',' ∷ to_string (last_line c)) (op ∷ []))
      ∙ parse_two c.old_start (last_line c) op (omega (arith, w.end_bound))
          (omega (arith, w.end_bound)) no_digit)
]

-- The three headers that a change is written with.
pub parse_append :
    (c : Change)
    → Writable c
    → parse_ed_command (to_string c.append_after ++ codes "a")
      ≡ some
          (record { kind = append; start = c.append_after; end = c.append_after; input = [] }, true)
unfolding command_of
parse_append c w = parse_one c.append_after b'a' w.append_bound refl (unfold is_digit in refl)

pub parse_delete :
    (c : Change)
    → Writable c
    → (c.old_count == 0) ≡ false
    → parse_ed_command (address c ++ codes "d")
      ≡ some (record { kind = delete; start = c.old_start; end = last_line c; input = [] }, false)
unfolding command_of
parse_delete c w e = parse_address c b'd' w e refl (unfold is_digit in refl)

pub parse_change :
    (c : Change)
    → Writable c
    → (c.old_count == 0) ≡ false
    → parse_ed_command (address c ++ codes "c")
      ≡ some (record { kind = change; start = c.old_start; end = last_line c; input = [] }, true)
unfolding command_of
parse_change c w e = parse_address c b'c' w e refl (unfold is_digit in refl)
