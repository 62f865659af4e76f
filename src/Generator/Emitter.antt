-- ===== src/Generator/Emitter.antt =====
-- tools/changes.cpp, lines 522 to 552 and 709 to 755: the sections of a bundle where the added lines
-- are not written as they are. The branch on `opt.corpus && idx && corpus` is a parameter, what writes
-- the lines: `emit_added_corpus` for a corpus, all the same `some` without one.
pub mod Written
pub mod Scripts
pub mod Texts
use phpatcher.Base.Options.{◌>>=◌}
use phpatcher.Base.{◌==◌, if◌then◌else◌, Bytes, codes, is_empty, List, [], ◌∷◌, ◌++◌, Option, some}
use phpatcher.Generator.{Change, block_text, address, Section, modified, added_file}
use phpatcher.Number.Print.{to_string}
use phpatcher.Text.{newline}

module _ (emit_added : List Bytes → Option (List Bytes)) where
  -- The added lines, and the `.` behind them.
  unfoldable pub added_block : List Bytes → Option Bytes
  unfolding block_text
  added_block added = do written ← emit_added added; some (block_text written)

  unfoldable pub emit_change_with : Change → Option Bytes
  unfolding added_block address
  emit_change_with c =
      if c.old_count == 0
      then (added_block c.added >>= λ block.
          some (to_string c.append_after ++ (codes "a\n" ++ block)))
      else if is_empty c.added
      then some (address c ++ codes "d\n")
      else (added_block c.added >>= λ block. some (address c ++ (codes "c\n" ++ block)))

  unfoldable pub emit_newfile_with : Bytes → List Bytes → Option Bytes
  unfolding added_block
  emit_newfile_with path lines = do
    block ← added_block lines
    some (codes "# newfile: " ++ (path ++ newline ∷ block))

  -- The loop from the last change to the first.
  unfoldable pub emit_reversed_with : List Change → Option Bytes
  unfolding emit_change_with
  emit_reversed_with [] = some []
  emit_reversed_with (c ∷ cs) = do
    behind ← emit_reversed_with cs
    text ← emit_change_with c
    some (behind ++ text)

  unfoldable pub emit_section_with : Section → Option Bytes
  unfolding emit_reversed_with emit_newfile_with
  emit_section_with (modified path []) = some []
  emit_section_with (modified path (c ∷ cs)) = do
    text ← emit_reversed_with (c ∷ cs)
    some (codes "# file: " ++ (path ++ newline ∷ text))
  emit_section_with (added_file path lines) = emit_newfile_with path lines

  unfoldable pub emit_sections_with : List Section → Option Bytes
  unfolding emit_section_with
  emit_sections_with [] = some []
  emit_sections_with (s ∷ ss) = do
    text ← emit_section_with s
    more ← emit_sections_with ss
    some (text ++ more)

  unfoldable pub emit_bundle_with : Bytes → Bytes → List Section → Option Bytes
  unfolding emit_sections_with
  emit_bundle_with origin target sections = do
    text ← emit_sections_with sections
    some (
        codes "# phpatcher-ed v1\n"
        ++ (codes "# Generated by tools/phpatcher-changes from changes vs "
            ++ (origin
                ++ ((if is_empty target then [] else codes " to " ++ target)
                    ++ (codes ".\n" ++ text)))))
