-- ===== src/Produce.antt =====
-- phpatcher.cpp, `phpatcher_get_patched` (lines 366 to 444), `phpatcher_fail_stub` (446 to 463) and
-- `phpatcher_precompute` (707 to 739). The resolver's cache does not show in its answers (Resolver),
-- so a script is applied with the resolver that has none.
pub mod Fresh
pub mod Warm
use phpatcher.Base.{
  ◌==◌, if◌then◌else◌, Bytes, codes, Result, ok, err, not, ◌||◌, List, [], ◌∷◌, ◌++◌, Option, none,
  some,
}
use phpatcher.Apply.{apply_ed_script}
use phpatcher.Bundle.{run}
use phpatcher.Dict.{lookup, assign}
use phpatcher.Ed.{FilePatch}
use phpatcher.Extension.{Settings, Contents, Globals, bump, warn, has_halt_compiler}
use phpatcher.PatchSet.{Entry, PatchSet}
use phpatcher.Resolver.{Disk, resolve_ref}

pub data PatchStatus : Type 0 where
  patched : Bytes → PatchStatus
  skip : PatchStatus
  fail : PatchStatus

-- The base of the script: nothing for a created file, else the file on disk.
pub data Original : Type 0 where
  base : Bytes → Original
  unreadable : Original
  halts : Original

read_original : Disk → Bytes → Original
read_original disk path = elim (disk path) [
  | none ↦ unreadable
  | some text ↦ if has_halt_compiler text then halts else base text
]

unfoldable pub original_of : Disk → FilePatch → Bytes → Original
unfolding read_original
original_of disk fp path = if not fp.creates then read_original disk path else base []

unfoldable pub apply_patch : Disk → Bytes → FilePatch → Bytes → Result Bytes Bytes
apply_patch disk anchor = apply_ed_script (some (resolve_ref disk anchor))

unfoldable pub lookup_in : Option Contents → Bytes → Option Bytes
lookup_in none path = none
lookup_in (some m) path = lookup path m

store_in : Option Contents → Bytes → Bytes → Option Contents
store_in none path content = none
store_in (some m) path content = some (assign path content m)

note_unreadable : Settings → Bytes → Globals → Globals
note_unreadable settings path g =
    warn settings (codes "phpatcher: cannot read original file '" ++ (path ++ codes "'"))
      (record g {
        read_failures = bump g.read_failures;
        last_error = codes "cannot read original file '" ++ (path ++ codes "'");
      })

note_halts : Settings → Bytes → Globals → Globals
note_halts settings path g =
    warn settings
      (codes "phpatcher: skipping '"
        ++ (path ++ codes "' (__halt_compiler present; patching would shift its data offset)"))
      (record g { skipped_halt = bump g.skipped_halt })

note_failed : Settings → Bytes → Bytes → Globals → Globals
note_failed settings path error g =
    warn settings (codes "phpatcher: patch did not apply to '" ++ (path ++ (codes "': " ++ error)))
      (record g {
        apply_failures = bump g.apply_failures;
        last_error = codes "patch did not apply to '" ++ (path ++ (codes "': " ++ error));
      })

-- Behind the two maps: the script is applied, and the result kept if the cache is on.
keep : Settings → Bytes → Globals → Result Bytes Bytes → Globals × PatchStatus
unfolding note_failed store_in
keep settings path g (err error) = (note_failed settings path error g, fail)
keep settings path g (ok content) = (
  record g { cached = if settings.cache then store_in g.cached path content else g.cached },
  patched content,
)

produce : Disk → Settings → FilePatch → Bytes → Globals → Original → Globals × PatchStatus
unfolding keep note_unreadable note_halts
produce disk settings fp path g unreadable = (note_unreadable settings path g, fail)
produce disk settings fp path g halts = (note_halts settings path g, skip)
produce disk settings fp path g (base text) =
    keep settings path g (apply_patch disk g.anchor fp text)

-- The cache, if it is on.
from_cache : Disk → Settings → FilePatch → Bytes → Globals → Option Bytes → Globals × PatchStatus
unfolding produce
from_cache disk settings fp path g (some content) = (g, patched content)
from_cache disk settings fp path g none = produce disk settings fp path g (original_of disk fp path)

unfoldable pub get_patched : Disk → Settings → FilePatch → Bytes → Globals → Globals × PatchStatus
unfolding from_cache lookup_in
get_patched disk settings fp path g = elim (lookup_in g.precomputed path) [
  | some content ↦ (g, patched content)
  | none ↦
      from_cache disk settings fp path g (if settings.cache then lookup_in g.cached path else none)
]

-- `'` and `\` are escaped.
escape : Bytes → Bytes
escape [] = []
escape (c ∷ s) = if c == b'\\' || c == b'\'' then b'\\' ∷ c ∷ escape s else c ∷ escape s

unfoldable pub fail_stub : Bytes → Bytes → Bytes
unfolding escape
fail_stub path reason =
    codes "<?php throw new \\RuntimeException('phpatcher: refusing to run unpatched code for "
    ++ (escape path ++ (codes " (" ++ (escape reason ++ codes ")');\n")))

-- One round of the warm-up: a file that cannot be read, halts or does not apply is left out.
warm_with : Disk → Bytes → Entry → Contents → Original → Contents
warm_with disk anchor e m unreadable = m
warm_with disk anchor e m halts = m
warm_with disk anchor e m (base text) = elim (apply_patch disk anchor e.patch text) [
  | ok content ↦ assign e.path content m
  | err _ ↦ m
]

warm_all : Disk → Bytes → List Entry → Contents → Contents
unfolding warm_with
warm_all disk anchor [] m = m
warm_all disk anchor (e ∷ es) m =
    warm_all disk anchor es (warm_with disk anchor e m (original_of disk e.patch e.path))

unfoldable pub precompute : Disk → PatchSet → Globals → Globals
unfolding warm_all
precompute disk set g = record g { precomputed = some (warm_all disk g.anchor set.index []) }
