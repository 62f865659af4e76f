-- ===== src/Collector/Patch.antt =====
-- From a diff to the patched text: the changes are collected, written, parsed, found and applied.
use phpatcher.Base.{
  if◌then◌else◌, Bytes, equal_iff, length, is_empty, All, ok, ◌<◌, true, false, List, [], ◌∷◌, ◌≢◌,
  some, ◌≡◌, refl, ◌∙◌,
}
use phpatcher.Apply.{RefResolver, apply_ed_script}
use phpatcher.Bundle.{parse}
use phpatcher.Collector.{Callback, diff_buffers}
use phpatcher.Collector.Diff.{Describes, added_lines, diff_buffers-apply_ed_script}
use phpatcher.Collector.Placed.{Plain}
use phpatcher.Ed.{FilePatch}
use phpatcher.Generator.{Change, modified, emit_bundle}
use phpatcher.Generator.Bundles.{all_entries, parse-emit_bundle}
use phpatcher.Generator.Commands.{Writable}
use phpatcher.Generator.Sections.{commands_for, HeaderPath}
use phpatcher.Hooks.{resolve}
use phpatcher.Indexer.Files.{found}
use phpatcher.Number.{int64_max}
use phpatcher.PatchSet.{PatchSet, basename_of, basenames_of, first_duplicate, finalize, find}
use phpatcher.PatchSet.Lookup.{section_for, find-finalize}
use phpatcher.Search.{insert_by, sort_by, unique}
use phpatcher.Text.{split_lines, join_lines}
use phpatcher.Text.Lines.{IsLine}

-- An index of one section.
one_section :
    (path : Bytes) (fp : FilePatch)
    → finalize (record { path = path; patch = fp } ∷ [])
      ≡ ok (record {
        index = record { path = path; patch = fp } ∷ [];
        basenames = basename_of path ∷ [];
      })
unfolding finalize sort_by insert_by first_duplicate basenames_of unique
one_section path fp = refl

section_for-one :
    (path : Bytes) (fp : FilePatch)
    → section_for path (record { path = path; patch = fp } ∷ []) ≡ some fp
section_for-one path fp = rw ((equal_iff path path).1 refl) refl

all_entries-modified :
    (canon : Bytes → Bytes) (path : Bytes) (cs : List Change)
    → cs ≢ []
    → all_entries canon (modified path cs ∷ [])
      ≡ record { path = canon path; patch = record { commands = commands_for cs; creates = false } }
        ∷ []
all_entries-modified canon path [] h = absurd (h refl)
all_entries-modified canon path (c ∷ cs) h = refl

-- A bundle of one section is parsed, and its patch is found under the canonical path.
pub parse_one_section :
    (canon : Bytes → Bytes) (origin target path : Bytes) (cs : List Change)
    → IsLine origin
    → IsLine target
    → HeaderPath path
    → All Writable cs
    → cs ≢ []
    → (set : PatchSet) × (parse canon (emit_bundle origin target (modified path cs ∷ [])) ≡ ok set)
      × (find set (canon path) ≡ some (record { commands = commands_for cs; creates = false }))
parse_one_section canon origin target path cs o t h ws some_changes =
    let fp : FilePatch = record { commands = commands_for cs; creates = false } in
    let set : PatchSet = record {
      index = record { path = canon path; patch = fp } ∷ [];
      basenames = basename_of (canon path) ∷ [];
    } in
    let built : finalize (all_entries canon (modified path cs ∷ [])) ≡ ok set =
      rw (all_entries-modified canon path cs some_changes) (one_section (canon path) fp) in
    (
      set,
      parse-emit_bundle canon origin target (modified path cs ∷ []) o t ((h, ws), tt) ∙ built,
      find-finalize (record { path = canon path; patch = fp } ∷ []) set (canon path)
            (one_section (canon path) fp)
          ∙ section_for-one (canon path) fp,
    )

-- The whole way of a diff, for calls that describe an edit of the lines of a text, where
-- no added line reads as a reference or is a lone dot, revision names and added lines have no newline
-- inside, line numbers are within the reader's limit, the path is not empty, has no newline and no
-- blank at either end, the text has fewer than 2 ^ 63 - 1 lines and there is a change. The changes
-- are collected and written as the one section of a bundle; the bundle is parsed; its index finds the
-- patch under the canonical path; and that patch, applied to the old text, gives the new lines. An added
-- line stands there without its `\n` or `\r\n`, a line that stays keeps its `\r`.
pub patched_by_bundle :
    (canon : Bytes → Bytes) (origin target path : Bytes) (resolve : RefResolver)
    (calls : List Callback) (text : Bytes) (new : List Bytes)
    (d : Describes false 0 calls (split_lines text).0 new)
    → All Plain (added_lines d)
    → IsLine origin
    → IsLine target
    → HeaderPath path
    → All Writable (diff_buffers calls)
    → diff_buffers calls ≢ []
    → length (split_lines text).0 < int64_max
    → (set : PatchSet) × (fp : FilePatch) × (parse canon
          (emit_bundle origin target (modified path (diff_buffers calls) ∷ []))
        ≡ ok set)
      × (find set (canon path) ≡ some fp)
      × (apply_ed_script resolve fp text
          ≡ ok (join_lines new (if is_empty text then true else (split_lines text).1)))
patched_by_bundle canon origin target path resolve calls text new d ps o t h ws some_changes short =
    let (set, parsed, found) =
      parse_one_section canon origin target path (diff_buffers calls) o t h ws some_changes in
    (
      set,
      record { commands = commands_for (diff_buffers calls); creates = false },
      parsed,
      found,
      diff_buffers-apply_ed_script resolve calls text new d ps short,
    )
