-- ===== src/Tests/Patched.antt =====
-- A diff that adds lines of a corpus, on its whole way.
use phpatcher.Base.{
  if◌then◌else◌, Bytes, codes, equal, is_empty, All, ok, true, false, List, [], ◌∷◌, cons-ne-nil,
  some, ◌≡◌, refl, arith,
}
use phpatcher.Apply.{apply_ed_script}
use phpatcher.Bundle.{parse}
use phpatcher.Collector.{
  strip_eol, flush, start_change, Callback, hunk, context, addition, call, diff_buffers,
}
use phpatcher.Collector.Contents.{lf, append-NotLast}
use phpatcher.Collector.Corpora.{emitter, patched_by_corpus_bundle}
use phpatcher.Collector.Diff.{Describes, stop, skip_to, stay, add, added_lines}
use phpatcher.Collector.Placed.{Plain}
use phpatcher.Ed.{FilePatch}
use phpatcher.Generator.{Change, modified}
use phpatcher.Generator.Commands.{Writable}
use phpatcher.Generator.Emitter.{emit_bundle_with}
use phpatcher.PatchSet.{PatchSet, find}
use phpatcher.Resolver.{resolve_ref}
use phpatcher.Text.{split_lines, join_lines}
use phpatcher.Text.Lines.{all_but, all_but-IsLine}
use phpatcher.Tests.Added.{
  library_disk, library_corpus, library_name, library_index, split_text, library_served,
  library_index-HasWords, library_lines-Plain,
}
use phpatcher.Tests.Diffs.{a_path-HeaderPath}

abbrev short_text : Bytes
short_text = codes "a\n"

abbrev longer_lines : List Bytes
longer_lines = codes "a" ∷ codes "echo 1;" ∷ codes "echo 2;" ∷ []

abbrev two_additions : List Callback
two_additions =
    hunk 1 ∷ context 1 ∷ addition (codes "echo 1;\n") ∷ addition (codes "echo 2;\n") ∷ []

two_additions-Describes : Describes false 0 two_additions (split_lines short_text).0 longer_lines
unfolding split_lines
two_additions-Describes = skip_to [] (
    stay (codes "a") (
      add (codes "echo 1;\n") (codes "echo 1;")
        (lf (codes "echo 1;")
          (append-NotLast b';' b'\r' (codes "echo 1") λ e. absurd (omega arith)))
        (add (codes "echo 2;\n") (codes "echo 2;")
          (lf (codes "echo 2;")
            (append-NotLast b';' b'\r' (codes "echo 2") λ e. absurd (omega arith)))
          stop)))

two_additions-Plain : All Plain (added_lines two_additions-Describes)
unfolding two_additions-Describes
two_additions-Plain = library_lines-Plain

abbrev two_lines_more : Change
two_lines_more = record {
  old_start = 0;
  old_count = 0;
  append_after = 1;
  added = codes "echo 1;" ∷ codes "echo 2;" ∷ [];
}

collected_twice : diff_buffers two_additions ≡ two_lines_more ∷ []
unfolding diff_buffers call flush start_change strip_eol
collected_twice = refl

two_additions-Writable : All Writable (diff_buffers two_additions)
unfolding diff_buffers call flush start_change strip_eol equal all_but
two_additions-Writable = (
  record {
    append_bound = omega arith;
    end_bound = omega arith;
    lines = (all_but-IsLine (codes "echo 1;") refl, (all_but-IsLine (codes "echo 2;") refl, tt));
    no_end = (refl, (refl, tt));
  },
  tt,
)

patched_by_corpus_bundle_example :
    (bundle : Bytes) × (set : PatchSet) × (fp : FilePatch) × (emit_bundle_with
        (emitter library_disk
          (codes "/p")
          split_text
          (library_index false)
          library_corpus
          library_corpus
          library_name
          false
          2
          library_served
          (library_index-HasWords false)
          refl)
        (codes "HEAD")
        []
        (modified (codes "a.php") (diff_buffers two_additions) ∷ [])
      ≡ some bundle)
    × (parse (λ p. p) bundle ≡ ok set)
    × (find set (codes "a.php") ≡ some fp)
    × (apply_ed_script (some (resolve_ref library_disk (codes "/p"))) fp short_text
        ≡ ok (
            join_lines longer_lines
              (if is_empty short_text then true else (split_lines short_text).1)))
patched_by_corpus_bundle_example =
    patched_by_corpus_bundle library_disk (codes "/p") split_text (library_index false)
      library_corpus library_corpus library_name false 2 library_served
      (library_index-HasWords false) refl (λ p. p) (codes "HEAD") [] (codes "a.php") two_additions
      short_text longer_lines two_additions-Describes two_additions-Plain
      (all_but-IsLine (codes "HEAD") (unfold all_but in refl)) tt a_path-HeaderPath
      two_additions-Writable (rw collected_twice (cons-ne-nil two_lines_more []))
      (unfold split_lines in omega arith)
