-- ===== src/Generator/Emitter/Texts.antt =====
-- tools/changes.cpp, lines 522 to 552: what is written is the text of the changes with the lines that
-- are written in place of their own.
use phpatcher.Base.{
  ◌==◌, Bool-cases, Bytes, is_empty, All, List, [], ◌∷◌, map, inl, inr, Option, some, ◌≡◌, refl,
  ◌∙◌,
}
use phpatcher.Apply.{RefResolver}
use phpatcher.Generator.{
  Change, emit_change, emit_newfile, Section, modified, added_file, emit_reversed, emit_section,
  emit_sections, emit_bundle,
}
use phpatcher.Generator.Emitter.{
  added_block, emit_change_with, emit_newfile_with, emit_reversed_with, emit_section_with,
  emit_sections_with, emit_bundle_with,
}
use phpatcher.Generator.Emitter.Written.{
  IsWritable, written_change, written_for-returns, written_for-alike, WritableLines,
  written_section,
}

module _ (emit_added : List Bytes → Option (List Bytes)) (resolve : RefResolver) where
  emit_change_with-written :
      (c : Change)
      → IsWritable emit_added resolve c.added
      → emit_change_with emit_added c ≡ some (emit_change (written_change emit_added resolve c))
  unfolding emit_change_with emit_change added_block
  emit_change_with-written c w =
      let returns = written_for-returns emit_added resolve c.added w in
      elim (Bool-cases (c.old_count == 0)) [
        | inl e ↦ rw (emit_change_with, emit_change, e, returns) refl
        | inr e ↦ elim (Bool-cases (is_empty c.added)) [
          | inl f ↦
              let none_left = written_for-alike emit_added resolve c.added w ∙ f in
              rw (emit_change_with, emit_change, e, f, none_left) refl
          | inr f ↦
              let some_left = written_for-alike emit_added resolve c.added w ∙ f in
              rw (emit_change_with, emit_change, e, f, some_left, returns) refl
        ]
      ]

  emit_reversed_with-written :
      (cs : List Change)
      → All (λ c. IsWritable emit_added resolve c.added) cs
      → emit_reversed_with emit_added cs
        ≡ some (emit_reversed (map (written_change emit_added resolve) cs))
  unfolding emit_reversed_with emit_reversed
  emit_reversed_with-written [] _ = refl
  emit_reversed_with-written (c ∷ cs) (w, ws) =
      rw (emit_reversed_with-written cs ws, emit_change_with-written c w) refl

  emit_section_with-written :
      (s : Section)
      → WritableLines emit_added resolve s
      → emit_section_with emit_added s ≡ some (emit_section (written_section emit_added resolve s))
  unfolding emit_section_with emit_section emit_newfile_with emit_newfile added_block
  emit_section_with-written (modified path []) _ = refl
  emit_section_with-written (modified path (c ∷ cs)) h =
      rw (emit_reversed_with-written (c ∷ cs) h) refl
  emit_section_with-written (added_file path lines) w =
      rw (written_for-returns emit_added resolve lines w) refl

  emit_sections_with-written :
      (ss : List Section)
      → All (WritableLines emit_added resolve) ss
      → emit_sections_with emit_added ss
        ≡ some (emit_sections (map (written_section emit_added resolve) ss))
  unfolding emit_sections_with emit_sections
  emit_sections_with-written [] _ = refl
  emit_sections_with-written (s ∷ ss) (w, ws) =
      rw (emit_section_with-written s w, emit_sections_with-written ss ws) refl

  pub emit_bundle_with-written :
      (origin target : Bytes) (ss : List Section)
      → All (WritableLines emit_added resolve) ss
      → emit_bundle_with emit_added origin target ss
        ≡ some (emit_bundle origin target (map (written_section emit_added resolve) ss))
  unfolding emit_bundle_with emit_bundle
  emit_bundle_with-written origin target ss h = rw (emit_sections_with-written ss h) refl
