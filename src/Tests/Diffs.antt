-- ===== src/Tests/Diffs.antt =====
-- A diff at a concrete input, on its whole way.
use phpatcher.Base.{
  if◌then◌else◌, Bytes, codes, equal, is_empty, All, ok, true, false, List, [], ◌∷◌, cons-ne-nil,
  none, some, ◌≡◌, refl, arith,
}
use phpatcher.Apply.{apply_ed_script}
use phpatcher.Bundle.{parse}
use phpatcher.Collector.{
  strip_eol, flush, start_change, Callback, hunk, context, deletion, addition, call, diff_buffers,
}
use phpatcher.Collector.Contents.{crlf}
use phpatcher.Collector.Diff.{
  Describes, stop, skip_to, stay, remove, add, added_lines, diff_buffers-apply_ed_script,
}
use phpatcher.Collector.Patch.{patched_by_bundle}
use phpatcher.Collector.Placed.{Plain}
use phpatcher.Directive.{parse_r_directive, parse_ed_input_piece}
use phpatcher.Ed.{FilePatch}
use phpatcher.Generator.{Change, modified, emit_bundle}
use phpatcher.Generator.Commands.{Writable}
use phpatcher.Generator.Sections.{commands_for, HeaderPath}
use phpatcher.PatchSet.{PatchSet, find}
use phpatcher.Text.{is_blank, split_lines, join_lines, rtrim, drop_while, is_space, after_prefix}
use phpatcher.Text.Lines.{all_but, all_but-IsLine}

abbrev old_text : Bytes
old_text = codes "a\nb\nc\n"

abbrev new_lines : List Bytes
new_lines = codes "a" ∷ codes "B" ∷ codes "c" ∷ []

abbrev one_hunk : List Callback
one_hunk = hunk 1 ∷ context 1 ∷ deletion 2 ∷ addition (codes "B\r\n") ∷ context 3 ∷ []

one_hunk-Describes : Describes false 0 one_hunk (split_lines old_text).0 new_lines
unfolding split_lines
one_hunk-Describes = skip_to [] (
    stay (codes "a") (
      remove (codes "b")
        (add (codes "B\r\n") (codes "B") (crlf (codes "B")) (stay (codes "c") stop))))

one_hunk-Plain : All Plain (added_lines one_hunk-Describes)
unfolding one_hunk-Describes parse_ed_input_piece parse_r_directive after_prefix
one_hunk-Plain = (refl, tt)

abbrev one_change : Change
one_change = record { old_start = 2; old_count = 1; append_after = 1; added = codes "B" ∷ [] }

collected_once : diff_buffers one_hunk ≡ one_change ∷ []
unfolding diff_buffers call flush start_change strip_eol
collected_once = refl

one_hunk-Writable : All Writable (diff_buffers one_hunk)
unfolding diff_buffers call flush start_change strip_eol equal all_but
one_hunk-Writable = (
  record {
    append_bound = omega arith;
    end_bound = omega arith;
    lines = (all_but-IsLine (codes "B") refl, tt);
    no_end = (refl, tt);
  },
  tt,
)

diff_buffers-apply_ed_script_example :
    apply_ed_script none
      (record { commands = commands_for (diff_buffers one_hunk); creates = false })
      old_text
    ≡ ok (join_lines new_lines (if is_empty old_text then true else (split_lines old_text).1))
diff_buffers-apply_ed_script_example =
    diff_buffers-apply_ed_script none one_hunk old_text new_lines one_hunk-Describes one_hunk-Plain
      (unfold split_lines in omega arith)

pub a_path-HeaderPath : HeaderPath (codes "a.php")
unfolding rtrim drop_while is_space is_blank all_but
a_path-HeaderPath = record {
  nonempty = cons-ne-nil _ _;
  line = all_but-IsLine (codes "a.php") refl;
  trimmed = refl;
  starts = refl;
}

patched_by_bundle_example :
    (set : PatchSet) × (fp : FilePatch) × (parse
        (λ p. p)
        (emit_bundle (codes "HEAD") [] (modified (codes "a.php") (diff_buffers one_hunk) ∷ []))
      ≡ ok set)
    × (find set (codes "a.php") ≡ some fp)
    × (apply_ed_script none fp old_text
        ≡ ok (join_lines new_lines (if is_empty old_text then true else (split_lines old_text).1)))
patched_by_bundle_example =
    patched_by_bundle (λ p. p) (codes "HEAD") [] (codes "a.php") none one_hunk old_text new_lines
      one_hunk-Describes one_hunk-Plain (all_but-IsLine (codes "HEAD") (unfold all_but in refl)) tt
      a_path-HeaderPath one_hunk-Writable (rw collected_once (cons-ne-nil one_change []))
      (unfold split_lines in omega arith)
