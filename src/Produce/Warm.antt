-- ===== src/Produce/Warm.antt =====
-- The warm-up fills the map with the fresh content of every file that can be patched now.
use phpatcher.Base.{
  if◌then◌else◌, Bool-cases, Bytes, equal, equal_iff, Result, ok, err, List, [], ◌∷◌, inl, inr,
  Option, none, some, ◌≡◌, refl, sym, ap, ap₂, subst, ◌∙◌, arith,
}
use phpatcher.Dict.{lookup, lookup-assign}
use phpatcher.Ed.{FilePatch}
use phpatcher.Extension.{Contents, Globals}
use phpatcher.PatchSet.{Entry, PatchSet, path_of, find}
use phpatcher.PatchSet.Lookup.{section_for, section_for-Above, find-section_for}
use phpatcher.Produce.{
  PatchStatus, patched, skip, fail, Original, base, unreadable, halts, original_of, apply_patch,
  lookup_in, warm_with, warm_all, precompute,
}
use phpatcher.Produce.Fresh.{status_of, fresh_status, IsFresh, Coherent}
use phpatcher.Resolver.{Disk}
use phpatcher.Search.Sorting.{Above, IsStrict, IsStrict-IsSorted}

-- What the warm-up leaves in the map for a file: its content, or what was there.
abbrev pub content_or : PatchStatus → Option Bytes → Option Bytes
content_or (patched content) old = some content
content_or skip old = old
content_or fail old = old

module _ (disk : Disk) (anchor : Bytes) where
  lookup-warm_base :
      (e : Entry) (m : Contents) (path text : Bytes) (r : Result Bytes Bytes)
      → apply_patch disk anchor e.patch text ≡ r
      → lookup path (warm_with disk anchor e m (base text)) ≡ (
          if equal e.path path
          then content_or (status_of disk anchor e.patch (base text)) (lookup path m)
          else lookup path m)
  unfolding warm_with status_of
  lookup-warm_base e m path text (ok content) applied =
      rw (applied, warm_with, status_of) (lookup-assign e.path path content m)
  lookup-warm_base e m path text (err error) applied =
      rw (applied, warm_with, status_of) (ground arith)

  lookup-warm_with :
      (e : Entry) (m : Contents) (path : Bytes) (original : Original)
      → lookup path (warm_with disk anchor e m original) ≡ (
          if equal e.path path
          then content_or (status_of disk anchor e.patch original) (lookup path m)
          else lookup path m)
  lookup-warm_with e m path (base text) = lookup-warm_base e m path text _ refl
  lookup-warm_with e m path unreadable = unfold warm_with status_of in ground arith
  lookup-warm_with e m path halts = unfold warm_with status_of in ground arith

  warm_all-absent :
      (es : List Entry) (m : Contents) (path : Bytes)
      → section_for path es ≡ none
      → lookup path (warm_all disk anchor es m) ≡ lookup path m
  unfolding warm_all
  warm_all-absent [] m path h = refl
  warm_all-absent (e ∷ es) m path h = elim (Bool-cases (equal e.path path)) [
    | inl same ↦ absurd (ground arith)
    | inr other ↦
        warm_all-absent es _ path (ground arith)
        ∙ lookup-warm_with e m path (original_of disk e.patch e.path)
        ∙ rw other
  ]

  warm_all-present :
      (es : List Entry) (m : Contents) (path : Bytes) (fp : FilePatch)
      → IsStrict path_of es
      → section_for path es ≡ some fp
      → lookup path (warm_all disk anchor es m)
        ≡ content_or (fresh_status disk anchor fp path) (lookup path m)
  unfolding warm_all fresh_status
  warm_all-present [] m path fp s h = cc
  warm_all-present (e ∷ es) m path fp (above, s) h = elim (Bool-cases (equal e.path path)) [
    | inr other ↦
        warm_all-present es _ path fp s (ground arith)
        ∙ ap (content_or (fresh_status disk anchor fp path))
            (lookup-warm_with e m path (original_of disk e.patch e.path) ∙ rw other)
    | inl same ↦
        let at : e.path ≡ path = (equal_iff e.path path).0 same in
        let mine : e.patch ≡ fp = ground arith in
        warm_all-absent es _ path
          (section_for-Above path es (subst (λ (p : Bytes). Above path_of p es) at above))
        ∙ lookup-warm_with e m path (original_of disk e.patch e.path)
        ∙ rw same (
            ap₂
              (λ (p : Bytes) (f : FilePatch).
                content_or (status_of disk anchor f (original_of disk f p)) (lookup path m))
              at mine)
  ]

content_or-none : (s : PatchStatus) (c : Bytes) → content_or s none ≡ some c → s ≡ patched c
content_or-none (patched d) c h = cc
content_or-none skip c h = cc
content_or-none fail c h = cc

-- With one section for each path, the warm-up holds for an indexed file exactly the content that a
-- compile would produce from the disk, and nothing for a file that would be skipped or fail.
pub precompute-fresh_status :
    (disk : Disk) (set : PatchSet) (g : Globals) (path : Bytes) (fp : FilePatch)
    → IsStrict path_of set.index
    → find set path ≡ some fp
    → lookup_in (precompute disk set g).precomputed path
      ≡ content_or (fresh_status disk g.anchor fp path) none
unfolding precompute lookup_in lookup
precompute-fresh_status disk set g path fp s h =
    warm_all-present disk g.anchor set.index [] path fp s
      (sym (find-section_for set path (IsStrict-IsSorted path_of set.index s)) ∙ h)

-- So a warmed-up map is right.
pub precompute-Coherent :
    (disk : Disk) (set : PatchSet) (g : Globals)
    → IsStrict path_of set.index
    → IsFresh disk g.anchor (find set) g.cached
    → Coherent disk (find set) (precompute disk set g)
unfolding precompute
precompute-Coherent disk set g s cached = record {
  of_precomputed = λ path content fp has hit.
      content_or-none _ content (sym (precompute-fresh_status disk set g path fp s has) ∙ hit);
  of_cached = cached;
}
