-- ===== src/Tests/Bundles.antt =====
-- The generator's output at concrete inputs.
use phpatcher.Base.{
  Bytes, codes, equal, All, ok, ℕ, true, false, List, [], ◌∷◌, map, cons-ne-nil, Option, none, some,
  ◌≡◌, refl, arith,
}
use phpatcher.Apply.{build_input}
use phpatcher.Bundle.{parse}
use phpatcher.Directive.{parse_r_directive, parse_ed_input_piece}
use phpatcher.Generator.{
  Corpus, guard_text, is_ws, trim_end, trim, trim_pad_for, ref_line, emit_ref, Change, block_text,
  address, emit_change, Section, modified, added_file, emit_reversed, emit_section, emit_bundle,
}
use phpatcher.Generator.Bundles.{all_entries, parse-emit_bundle}
use phpatcher.Generator.References.{guarded, with_pads, range_ref, parse_r_directive-ref_line}
use phpatcher.Generator.Resolution.{wrapped, emit_ref-build_input}
use phpatcher.Generator.Sections.{WritableSection}
use phpatcher.Number.Print.{to_string}
use phpatcher.PatchSet.{finalize}
use phpatcher.Resolver.{Disk, split_corpus_lines, run_of, resolve_ref}
use phpatcher.Text.{is_blank, rtrim, drop_while, is_space}
use phpatcher.Text.Lines.{all_but, all_but-IsLine}

abbrev two_lines : Bytes × ℕ
two_lines = (codes "one\ntwo\n", 8)

abbrev spaces : Option (Bytes × Bytes)
spaces = some (codes "  ", [])

parse_r_directive-ref_line_example :
    parse_r_directive (ref_line (codes "lib.php") 1 2 spaces (guard_text true two_lines))
    ≡ some (guarded true two_lines (with_pads spaces (range_ref (codes "lib.php") 1 2)))
parse_r_directive-ref_line_example =
    parse_r_directive-ref_line (codes "lib.php") 1 2 spaces true two_lines (omega arith)
      (omega arith) (omega arith) (omega arith)

abbrev library_text : Bytes
library_text = codes "one\ntwo\nthree\n"

abbrev one_file : Disk
one_file path = some library_text

abbrev loaded : Corpus
loaded id = some (split_corpus_lines library_text)

abbrev file_names : ℕ → Bytes
file_names id = codes "lib.php"

emit_ref-build_input_example :
    (line : Bytes) × (emit_ref loaded file_names false 0 1 2 none ≡ some line)
    × (build_input (some (resolve_ref one_file (codes "/p"))) (parse_ed_input_piece line ∷ [])
        ≡ ok (map (wrapped none) (run_of 1 2 (split_corpus_lines library_text))))
emit_ref-build_input_example =
    emit_ref-build_input one_file (codes "/p") loaded file_names false 0 1 2 none library_text refl
      refl (omega arith) (omega arith) (unfold split_corpus_lines in omega arith) (omega arith)
      (unfold split_corpus_lines in omega arith)

abbrev some_changes : List Change
some_changes =
    record { old_start = 2; old_count = 2; append_after = 1; added = codes "x" ∷ [] }
    ∷ record { old_start = 0; old_count = 0; append_after = 5; added = codes "y" ∷ [] }
    ∷ []

abbrev some_sections : List Section
some_sections =
    modified (codes "a.php") some_changes ∷ added_file (codes "b.php") (codes "<?php" ∷ []) ∷ []

some_sections-WritableSection : All WritableSection some_sections
unfolding rtrim drop_while is_space is_blank equal all_but
some_sections-WritableSection = (
  (
    record {
      nonempty = cons-ne-nil _ _;
      line = all_but-IsLine (codes "a.php") refl;
      trimmed = refl;
      starts = refl;
    },
    (
      record {
        append_bound = omega arith;
        end_bound = omega arith;
        lines = (all_but-IsLine (codes "x") refl, tt);
        no_end = (refl, tt);
      },
      (
        record {
          append_bound = omega arith;
          end_bound = omega arith;
          lines = (all_but-IsLine (codes "y") refl, tt);
          no_end = (refl, tt);
        },
        tt,
      ),
    ),
  ),
  (
    (
      record {
        nonempty = cons-ne-nil _ _;
        line = all_but-IsLine (codes "b.php") refl;
        trimmed = refl;
        starts = refl;
      },
      (all_but-IsLine (codes "<?php") refl, tt),
      (refl, tt),
    ),
    tt,
  ),
)

parse-emit_bundle_example :
    parse (λ p. p) (emit_bundle (codes "HEAD") [] some_sections)
    ≡ finalize (all_entries (λ p. p) some_sections)
parse-emit_bundle_example =
    parse-emit_bundle (λ p. p) (codes "HEAD") [] some_sections
      (all_but-IsLine (codes "HEAD") (unfold all_but in refl)) tt some_sections-WritableSection

section_text :
    emit_section (modified (codes "a.php") some_changes)
    ≡ codes "# file: a.php\n5a\ny\n.\n2,3c\nx\n.\n"
unfolding emit_section emit_reversed emit_change address to_string block_text
section_text = refl

tabbed : trim_pad_for (codes "return 1;") (codes "  return 1; ") ≡ some (codes "  ", codes " ")
unfolding trim_pad_for trim trim_end is_ws drop_while
tabbed = refl
