-- ===== src/Produce/Fresh.antt =====
-- What a file is patched to when nothing is remembered, and that the two maps do not change it.
use phpatcher.Base.{
  if◌then◌else◌, Bool-cases, Option-cases, Bytes, equal, equal_iff, Result, ok, err, Bool, true,
  false, inl, inr, Option, none, some, ◌≡◌, refl, sym, ap, subst, ◌∙◌,
}
use phpatcher.Dict.{lookup-assign}
use phpatcher.Ed.{FilePatch}
use phpatcher.Extension.{Settings, Contents, Globals, warn}
use phpatcher.Produce.{
  PatchStatus, patched, skip, fail, Original, base, unreadable, halts, original_of, apply_patch,
  lookup_in, store_in, note_failed, keep, produce, from_cache, get_patched,
}
use phpatcher.Resolver.{Disk}

unfoldable pub status_of : Disk → Bytes → FilePatch → Original → PatchStatus
status_of disk anchor fp unreadable = fail
status_of disk anchor fp halts = skip
status_of disk anchor fp (base text) = elim (apply_patch disk anchor fp text) [
  | ok content ↦ patched content
  | err _ ↦ fail
]

-- The outcome for a file, from the disk alone.
unfoldable pub fresh_status : Disk → Bytes → FilePatch → Bytes → PatchStatus
unfolding status_of
fresh_status disk anchor fp path = status_of disk anchor fp (original_of disk fp path)

-- Every remembered content of an indexed file is what the disk gives now.
abbrev pub IsFresh : Disk → Bytes → (Bytes → Option FilePatch) → Option Contents → Type 0
IsFresh disk anchor patch_for m =
    (path content : Bytes) (fp : FilePatch)
    → patch_for path ≡ some fp
    → lookup_in m path ≡ some content
    → fresh_status disk anchor fp path ≡ patched content

pub record Coherent (disk : Disk) (patch_for : Bytes → Option FilePatch) (g : Globals)
    : Type 0 where
  pub of_precomputed : IsFresh disk g.anchor patch_for g.precomputed
  pub of_cached : IsFresh disk g.anchor patch_for g.cached

IsFresh-store :
    (disk : Disk) (anchor : Bytes) (patch_for : Bytes → Option FilePatch) (m : Option Contents)
    (path content : Bytes) (fp : FilePatch)
    → patch_for path ≡ some fp
    → fresh_status disk anchor fp path ≡ patched content
    → IsFresh disk anchor patch_for m
    → IsFresh disk anchor patch_for (store_in m path content)
unfolding store_in lookup_in
IsFresh-store disk anchor patch_for none path content fp has fresh old q c fq hq hit =
    old q c fq hq hit
IsFresh-store disk anchor patch_for (some m) path content fp has fresh old q c fq hq hit =
    let look = lookup-assign path q content m in
    elim (Bool-cases (equal path q)) [
      | inl same ↦
          let at : path ≡ q = (equal_iff path q).0 same in
          let kept : some content ≡ some c = sym (look ∙ rw same) ∙ hit in
          let one : some fp ≡ some fq = sym has ∙ ap patch_for at ∙ hq in
          let fresh' : fresh_status disk anchor fq path ≡ patched c = cc in
          subst (λ (r : Bytes). fresh_status disk anchor fq r ≡ patched c) at fresh'
      | inr other ↦ old q c fq hq (sym (look ∙ rw other) ∙ hit)
    ]

Coherent-warn :
    (disk : Disk) (patch_for : Bytes → Option FilePatch) (settings : Settings) (text : Bytes)
    (g : Globals)
    → Coherent disk patch_for g
    → Coherent disk patch_for (warn settings text g)
Coherent-warn disk patch_for settings text g c = elim (Bool-cases settings.strict) [
  | inl loud ↦ rw loud (record { of_precomputed = c.of_precomputed; of_cached = c.of_cached })
  | inr quiet ↦ rw quiet c
]

if_some :
    (b : Bool) (o : Option Bytes) (content : Bytes)
    → (if b then o else none) ≡ some content
    → o ≡ some content
if_some true o content e = e
if_some false o content e = cc

module _ (disk : Disk) (settings : Settings) (patch_for : Bytes → Option FilePatch) (fp : FilePatch)
    (path : Bytes) (g : Globals) (has : patch_for path ≡ some fp)
    (c : Coherent disk patch_for g) where
  keep-fresh :
      (r : Result Bytes Bytes) (text : Bytes)
      → apply_patch disk g.anchor fp text ≡ r
      → original_of disk fp path ≡ base text
      → ((keep settings path g r).1 ≡ fresh_status disk g.anchor fp path)
        × Coherent disk patch_for (keep settings path g r).0
  unfolding keep note_failed fresh_status
  keep-fresh (err error) text applied e = (
    rw (e, status_of, applied),
    Coherent-warn disk patch_for settings _ _
        (record { of_precomputed = c.of_precomputed; of_cached = c.of_cached }),
  )
  keep-fresh (ok content) text applied e =
      let fresh : fresh_status disk g.anchor fp path ≡ patched content =
        rw (e, status_of, applied) in
      (
        sym fresh,
        elim (Bool-cases settings.cache) [
          | inr off ↦ rw off (record { of_precomputed = c.of_precomputed; of_cached = c.of_cached })
          | inl on ↦ rw on (record {
            of_precomputed = c.of_precomputed;
            of_cached =
                IsFresh-store disk g.anchor patch_for g.cached path content fp has fresh
                  c.of_cached;
          })
        ],
      )

  produce-fresh :
      (original : Original)
      → original_of disk fp path ≡ original
      → ((produce disk settings fp path g original).1 ≡ fresh_status disk g.anchor fp path)
        × Coherent disk patch_for (produce disk settings fp path g original).0
  unfolding produce fresh_status
  produce-fresh unreadable e = (
    rw e,
    Coherent-warn disk patch_for settings _ _
        (record { of_precomputed = c.of_precomputed; of_cached = c.of_cached }),
  )
  produce-fresh halts e = (
    rw e,
    Coherent-warn disk patch_for settings _ _
        (record { of_precomputed = c.of_precomputed; of_cached = c.of_cached }),
  )
  produce-fresh (base text) e = keep-fresh (apply_patch disk g.anchor fp text) text refl e

  from_cache-fresh :
      (entry : Option Bytes)
      → ((content : Bytes) → entry ≡ some content → lookup_in g.cached path ≡ some content)
      → ((from_cache disk settings fp path g entry).1 ≡ fresh_status disk g.anchor fp path)
        × Coherent disk patch_for (from_cache disk settings fp path g entry).0
  unfolding from_cache
  from_cache-fresh (some content) e = (sym (c.of_cached path content fp has (e content refl)), c)
  from_cache-fresh none e = produce-fresh (original_of disk fp path) refl

  -- The maps change how the content is found, not what it is: while the files stay as they are, the
  -- outcome for an indexed file is the fresh one, and the maps stay right.
  pub get_patched-fresh_status :
      ((get_patched disk settings fp path g).1 ≡ fresh_status disk g.anchor fp path)
      × Coherent disk patch_for (get_patched disk settings fp path g).0
  unfolding get_patched
  get_patched-fresh_status = elim (Option-cases (lookup_in g.precomputed path)) [
    | inr (content, hit) ↦ rw (hit, get_patched) (sym (c.of_precomputed path content fp has hit), c)
    | inl miss ↦
        rw (miss, get_patched)
          (from_cache-fresh (if settings.cache then lookup_in g.cached path else none)
            (if_some settings.cache (lookup_in g.cached path)))
  ]
