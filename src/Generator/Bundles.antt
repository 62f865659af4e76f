-- ===== src/Generator/Bundles.antt =====
-- `PatchSet::parse` of patch.cpp on the bundles that tools/changes.cpp writes.
use phpatcher.Base.Results.{◌>>=◌}
use phpatcher.Base.{
  Bytes, All, ok, Bool, true, false, List, [], ◌∷◌, ◌++◌, append-nil, append_assoc, ◌≡◌, refl, sym,
  ap, ◌∙◌,
}
use phpatcher.Bundle.{
  first_line_is_magic, looks_like_ed_bundle, initial, flush_current, plain_line, header_line, step,
  run, finish, parse_ed_bundle, parse,
}
use phpatcher.Ed.{FilePatch, empty_patch}
use phpatcher.Generator.{Section, emit_bundle}
use phpatcher.Generator.Blocks.{run-append}
use phpatcher.Generator.Sections.{
  entries_for, WritableSection, section_lines, between, flushed, Behind, Behind-section,
}
use phpatcher.Generator.Texts.{
  all_lines, magic, generated, emit_bundle-terminated, all_lines-IsLine, generated-IsLine,
}
use phpatcher.PatchSet.{Entry, finalize}
use phpatcher.Text.{is_blank, split_lines, drop_while, after_prefix}
use phpatcher.Text.Lines.{terminated, IsLine, split_lines-terminated, all_but, all_but-IsLine}

module _ (canon : Bytes → Bytes) where
  abbrev pub all_entries : List Section → List Entry
  all_entries [] = []
  all_entries (s ∷ ss) = entries_for canon s ++ all_entries ss

  pub Behind-sections :
      (ss : List Section) (index : List Entry) (current : FilePatch) (key : Bytes) (have : Bool)
      → All WritableSection ss
      → Behind canon (between canon index current key have) (all_entries ss) (all_lines ss)
  unfolding run
  Behind-sections [] index current key have _ = record {
    index = index;
    current = current;
    key = key;
    have = have;
    runs = refl;
    adds = sym (append-nil (flushed canon (between canon index current key have)));
  }
  Behind-sections (s ∷ ss) index current key have (h, hs) =
      let p = between canon index current key have in
      let one = Behind-section canon s index current key have h in
      let rest = Behind-sections ss (one.index) (one.current) (one.key) (one.have) hs in
      record {
        index = rest.index;
        current = rest.current;
        key = rest.key;
        have = rest.have;
        runs = rw (run-append canon p (section_lines s) (all_lines ss), one.runs) (rest.runs);
        adds =
            rest.adds
            ∙ ap (λ (es : List Entry). es ++ all_entries ss) (one.adds)
            ∙ append_assoc (flushed canon p) (entries_for canon s) (all_entries ss);
      }

module _ (canon : Bytes → Bytes) where
  parse-terminated :
      (ls : List Bytes)
      → All IsLine (magic ∷ ls)
      → parse canon (terminated (magic ∷ ls)) ≡ run canon initial (magic ∷ ls) >>= finish canon
  unfolding parse parse_ed_bundle
  parse-terminated ls h =
      let split : (split_lines (terminated (magic ∷ ls))).0 ≡ magic ∷ ls =
        ap (λ (r : List Bytes × Bool). r.0) (split_lines-terminated (magic ∷ ls) h) in
      let looks : looks_like_ed_bundle (terminated (magic ∷ ls)) ≡ true =
        unfold looks_like_ed_bundle in
        rw split (unfold first_line_is_magic drop_while is_blank after_prefix in refl) in
      rw (looks, split) refl

  -- Both lines at the head are comments.
  step-magic : step canon initial magic ≡ ok initial
  unfolding step header_line plain_line after_prefix drop_while is_blank
  step-magic = refl

  step-generated :
      (origin target : Bytes) → step canon initial (generated origin target) ≡ ok initial
  unfolding step header_line plain_line after_prefix drop_while is_blank
  step-generated origin target = refl

-- A bundle that the generator writes is read back: the index is built from exactly its sections, each
-- with its canonical path and its commands.
pub parse-emit_bundle :
    (canon : Bytes → Bytes) (origin target : Bytes) (sections : List Section)
    → IsLine origin
    → IsLine target
    → All WritableSection sections
    → parse canon (emit_bundle origin target sections) ≡ finalize (all_entries canon sections)
unfolding run finish
parse-emit_bundle canon origin target sections h k ws =
    let lines = generated origin target ∷ all_lines sections in
    let all : All IsLine (magic ∷ lines) = (
      all_but-IsLine magic (unfold all_but in refl),
      (generated-IsLine origin target h k, all_lines-IsLine sections ws),
    ) in
    let end = Behind-sections canon sections [] empty_patch [] false ws in
    ap (parse canon) (emit_bundle-terminated origin target sections)
    ∙ parse-terminated canon lines all
    ∙ rw (step-magic canon, step-generated canon origin target, end.runs, end.adds)
        (unfold flush_current in refl)
