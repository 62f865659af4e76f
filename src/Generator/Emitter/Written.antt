-- ===== src/Generator/Emitter/Written.antt =====
-- tools/changes.cpp, lines 522 to 552: a change or a section with the lines that are written in place
-- of its own, which patch.cpp reads as its own.
use phpatcher.Base.{Bytes, is_empty, All, ok, List, [], map, Option, none, some, ◌≡◌, sym, ap, ◌∙◌}
use phpatcher.Apply.{RefResolver, build_input}
use phpatcher.Directive.{parse_ed_input_piece}
use phpatcher.Generator.{Change, Section, modified, added_file}
use phpatcher.Generator.Added.BlockLines.{IsBlockLine}

module _ (emit_added : List Bytes → Option (List Bytes)) (resolve : RefResolver) where
  -- Added lines that can be written, and that the patcher makes of what is written.
  pub record IsWritable (added : List Bytes) : Type 0 where
    pub written : List Bytes
    pub returns : emit_added added ≡ some written
    pub reads : build_input resolve (map parse_ed_input_piece written) ≡ ok added
    pub alike : is_empty written ≡ is_empty added
    pub block_lines : All IsBlockLine written

  -- The change with the lines that are written for its own.
  abbrev pub written_for : List Bytes → List Bytes
  written_for added = elim (emit_added added) [ none ↦ [] | some written ↦ written ]

  abbrev pub written_change : Change → Change
  written_change c = record c { added = written_for c.added }

  written_for-written : (added : List Bytes) (w : IsWritable added) → written_for added ≡ w.written
  written_for-written added w =
      ap (λ (t : Option (List Bytes)). elim t [ none ↦ [] | some written ↦ written ]) (w.returns)

  pub written_for-returns :
      (added : List Bytes) → IsWritable added → emit_added added ≡ some (written_for added)
  written_for-returns added w =
      w.returns ∙ ap (λ (t : List Bytes). some t) (sym (written_for-written added w))

  pub written_for-reads :
      (added : List Bytes)
      → IsWritable added
      → build_input resolve (map parse_ed_input_piece (written_for added)) ≡ ok added
  written_for-reads added w = rw (written_for-written added w) (w.reads)

  pub written_for-IsBlockLine :
      (added : List Bytes) → IsWritable added → All IsBlockLine (written_for added)
  written_for-IsBlockLine added w = rw (written_for-written added w) (w.block_lines)

  pub written_for-alike :
      (added : List Bytes) → IsWritable added → is_empty (written_for added) ≡ is_empty added
  written_for-alike added w = rw (written_for-written added w) (w.alike)

  abbrev pub WritableLines : Section → Type 0
  WritableLines (modified path cs) = All (λ c. IsWritable c.added) cs
  WritableLines (added_file path lines) = IsWritable lines

  abbrev pub written_section : Section → Section
  written_section (modified path cs) = modified path (map written_change cs)
  written_section (added_file path lines) = added_file path (written_for lines)
