-- ===== src/Collector/Corpora.antt =====
-- From a diff to the patched text, where the added lines are written against a corpus: the references
-- of the bundle are resolved when it is applied.
use phpatcher.Base.{
  if◌then◌else◌, Bytes, codes, equal, length, is_empty, All, All-map, All-both, ok, ℕ, ◌<◌, Bool,
  true, false, List, [], ◌∷◌, map, cons-ne-nil, ◌≢◌, Option, some, ◌≡◌, refl, sym, ◌∙◌,
}
use phpatcher.Apply.{RefResolver, build_input, apply_ed_script}
use phpatcher.Bundle.{parse}
use phpatcher.Collector.{Callback, diff_buffers}
use phpatcher.Collector.Diff.{
  Describes, added_lines, diff_buffers-Plain, diff_buffers-apply_ed_script,
}
use phpatcher.Collector.Patch.{parse_one_section}
use phpatcher.Collector.Placed.{Plain}
use phpatcher.Directive.{parse_ed_input_piece}
use phpatcher.Ed.{FilePatch}
use phpatcher.Generator.{Corpus, Change, modified, emit_bundle}
use phpatcher.Generator.Added.{emit_added_corpus}
use phpatcher.Generator.Added.BlockLines.{IsBlockLine, emit_added_corpus-IsBlockLine}
use phpatcher.Generator.Added.Blocks.{HasWords, emit_added_corpus-build_input}
use phpatcher.Generator.Added.Ranges.{IsServed}
use phpatcher.Generator.Commands.{Writable}
use phpatcher.Generator.Emitter.{emit_bundle_with}
use phpatcher.Generator.Emitter.Scripts.{apply_ed_script-written}
use phpatcher.Generator.Emitter.Texts.{emit_bundle_with-written}
use phpatcher.Generator.Emitter.Written.{
  IsWritable, written_for, written_change, written_for-IsBlockLine,
}
use phpatcher.Generator.Sections.{commands_for, HeaderPath}
use phpatcher.Hooks.{resolve}
use phpatcher.IndexFile.{Loaded}
use phpatcher.Indexer.Files.{found}
use phpatcher.Normalizer.{NormLine}
use phpatcher.Number.{int64_max}
use phpatcher.PatchSet.{PatchSet, find}
use phpatcher.Resolver.{Disk, resolve_ref}
use phpatcher.Text.{split_lines, join_lines}
use phpatcher.Text.Lines.{IsLine}

-- The changes with what is written for their lines can be written as any changes.
written-Writable :
    (emit_added : List Bytes → Option (List Bytes)) (resolve : RefResolver) (cs : List Change)
    → All (λ c. IsWritable emit_added resolve c.added) cs
    → All Writable cs
    → All Writable (map (written_change emit_added resolve) cs)
written-Writable emit_added resolve [] _ _ = tt
written-Writable emit_added resolve (c ∷ cs) (w, ws) (h, hs) =
    let good = written_for-IsBlockLine emit_added resolve c.added w in
    (
      record {
        append_bound = h.append_bound;
        end_bound = h.end_bound;
        lines =
            All-map IsBlockLine IsLine (written_for emit_added resolve c.added) (λ l g. g.0) good;
        no_end =
            All-map IsBlockLine (λ l. equal l (codes ".") ≡ false)
              (written_for emit_added resolve c.added) (λ l g. g.1) good;
      },
      written-Writable emit_added resolve cs ws hs,
    )

map-ne-nil : (f : Change → Change) (cs : List Change) → cs ≢ [] → map f cs ≢ []
map-ne-nil f [] h = absurd (h refl)
map-ne-nil f (c ∷ cs) h = cons-ne-nil (f c) (map f cs)

block_lines_of : (c : Change) → Writable c → All IsBlockLine c.added
block_lines_of c w = All-both IsLine (λ l. equal l (codes ".") ≡ false) c.added w.lines w.no_end

module _ (disk : Disk) (base_dir : Bytes) (run : Bytes → List NormLine) (idx : Loaded)
    (corpus keys_of : Corpus) (file : ℕ → Bytes) (hash : Bool) (min_run : ℕ)
    (served : (f : ℕ) (lines : List Bytes)
      → corpus f ≡ some lines
      → IsServed disk base_dir (file f) lines)
    (words : HasWords idx) (bytes : idx.normalized ≡ false) where
  abbrev pub emitter : List Bytes → Option (List Bytes)
  emitter = emit_added_corpus run idx corpus keys_of file hash min_run

  abbrev on_disk : RefResolver
  on_disk = some (resolve_ref disk base_dir)

  written_alike :
      (added written : List Bytes)
      → emitter added ≡ some written
      → build_input on_disk (map parse_ed_input_piece written) ≡ ok added
      → is_empty written ≡ is_empty added
  unfolding emit_added_corpus build_input
  written_alike [] written e _ = let same : [] ≡ written = cc in rw (sym same) refl
  written_alike (x ∷ added) [] _ r = cc
  written_alike (x ∷ added) (y ∷ written) _ _ = refl

  emitter-IsWritable :
      (added : List Bytes)
      → All Plain added
      → All IsBlockLine added
      → IsWritable emitter on_disk added
  emitter-IsWritable added plain block_lines =
      let (written, returns, reads) =
        emit_added_corpus-build_input disk base_dir run idx corpus keys_of file hash min_run added
          served words plain bytes in
      record {
        written = written;
        returns = returns;
        reads = reads;
        alike = written_alike added written returns reads;
        block_lines =
            emit_added_corpus-IsBlockLine run idx corpus keys_of file hash min_run added written
              block_lines returns;
      }

  changes-IsWritable :
      (cs : List Change)
      → All Writable cs
      → All (λ c. All Plain c.added) cs
      → All (λ c. IsWritable emitter on_disk c.added) cs
  changes-IsWritable [] _ _ = tt
  changes-IsWritable (c ∷ cs) (w, ws) (p, ps) =
      (emitter-IsWritable c.added p (block_lines_of c w), changes-IsWritable cs ws ps)

  -- The whole way of a diff against a corpus, with a byte index whose postings are 32-bit line numbers
  -- and a corpus whose files the patcher reads as well, for calls that describe an edit of the lines of
  -- a text, where
  -- no added line reads as a reference or is a lone dot, revision names and added lines have no newline
  -- inside, line numbers are within the reader's limit, the path is not empty, has no newline and no
  -- blank at either end, the text has fewer than 2 ^ 63 - 1 lines and there is a change. The
  -- bundle is written; it is parsed; its index finds the patch under the canonical path; and that
  -- patch, applied to the old text with its references resolved, gives the new lines. An added line
  -- stands there without its `\n` or `\r\n`, a line that stays keeps its `\r`.
  pub patched_by_corpus_bundle :
      (canon : Bytes → Bytes) (origin target path : Bytes) (calls : List Callback) (text : Bytes)
      (new : List Bytes) (d : Describes false 0 calls (split_lines text).0 new)
      → All Plain (added_lines d)
      → IsLine origin
      → IsLine target
      → HeaderPath path
      → All Writable (diff_buffers calls)
      → diff_buffers calls ≢ []
      → length (split_lines text).0 < int64_max
      → (bundle : Bytes) × (set : PatchSet) × (fp : FilePatch) × (emit_bundle_with emitter origin
            target
            (modified path (diff_buffers calls) ∷ [])
          ≡ some bundle)
        × (parse canon bundle ≡ ok set)
        × (find set (canon path) ≡ some fp)
        × (apply_ed_script on_disk fp text
            ≡ ok (join_lines new (if is_empty text then true else (split_lines text).1)))
  patched_by_corpus_bundle canon origin target path calls text new d plain o t h ws some_changes
        short =
      let cs = diff_buffers calls in
      let ps = diff_buffers-Plain calls _ new d plain in
      let writable = changes-IsWritable cs ws ps in
      let written = map (written_change emitter on_disk) cs in
      let (set, parsed, found) =
        parse_one_section canon origin target path written o t h
          (written-Writable emitter on_disk cs writable ws)
          (map-ne-nil (written_change emitter on_disk) cs some_changes) in
      (
        emit_bundle origin target (modified path written ∷ []),
        set,
        record { commands = commands_for written; creates = false },
        emit_bundle_with-written emitter on_disk origin target (modified path cs ∷ [])
            (writable, tt),
        parsed,
        found,
        apply_ed_script-written emitter on_disk cs false text writable ps
            ∙ diff_buffers-apply_ed_script on_disk calls text new d plain short,
      )
