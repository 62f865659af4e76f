-- ===== src/Hooks.antt =====
-- phpatcher.cpp, lines 168 to 274 and 465 to 582: the three hooks. Each returns what it hands to the
-- handler that it wraps, or to the engine.
pub mod Policy
pub mod Created
use phpatcher.Base.{
  if◌then◌else◌, Bytes, codes, is_empty, Bool, true, false, not, ◌&&◌, ◌||◌, [], Option, none, some,
}
use phpatcher.Ed.{FilePatch}
use phpatcher.Extension.{Settings, Globals, Engine, FileHandle, fail_closed}
use phpatcher.PatchSet.{PatchSet, basename_of, find, has_basename}
use phpatcher.Produce.{PatchStatus, patched, skip, fail, base, get_patched, fail_stub}

-- The basename of the handle's path.
handle_basename : FileHandle → Bytes
handle_basename fh = elim fh.opened_path [
  | some p ↦ basename_of p
  | none ↦ elim fh.filename [ some p ↦ basename_of p | none ↦ [] ]
]

real_or_same : Engine → Bytes → Bytes
real_or_same engine p = elim (engine.realpath p) [ some r ↦ r | none ↦ p ]

-- A path that the engine cannot resolve: the name as `canonicalize` keys the index.
unresolved : Engine → Bytes → Option Bytes → Option Bytes
unresolved engine anchor filename = elim filename [
  | some p ↦ some (engine.canonicalize p anchor)
  | none ↦ none
]

resolved_name : Engine → FileHandle → Option Bytes
resolved_name engine fh = elim fh.opened_path [
  | some p ↦ some p
  | none ↦ elim fh.filename [ some p ↦ engine.resolve_path p | none ↦ none ]
]

unfoldable pub canonical_path : Engine → Bytes → FileHandle → Option Bytes
unfolding real_or_same unresolved resolved_name
canonical_path engine anchor fh = elim (resolved_name engine fh) [
  | some p ↦ some (real_or_same engine p)
  | none ↦ unresolved engine anchor fh.filename
]

-- A patch together with the key that it was found under.
find_at : PatchSet → Option Bytes → Option (FilePatch × Bytes)
find_at set none = none
find_at set (some path) = elim (find set path) [ some fp ↦ some (fp, path) | none ↦ none ]

-- `phpatcher_resolve`: the basename filter, the opened path as it is, the canonical path.
unfoldable pub resolve : Engine → Bytes → PatchSet → FileHandle → Option (FilePatch × Bytes)
unfolding handle_basename canonical_path find_at
resolve engine anchor set fh =
    let base = handle_basename fh in
    if is_empty base || not (has_basename set base)
    then none
    else elim (find_at set fh.opened_path) [
      | some found ↦ some found
      | none ↦ find_at set (canonical_path engine anchor fh)
    ]

-- The path that `__FILE__` and include_once will see.
opened_as : FileHandle → Bytes → Option Bytes
opened_as fh path = elim fh.opened_path [
  | some p ↦ some p
  | none ↦ elim fh.filename [ some _ ↦ some path | none ↦ none ]
]

unfoldable pub inject_source : FileHandle → Bytes → Bytes → FileHandle
unfolding opened_as
inject_source fh content path = record fh { buf = some content; opened_path = opened_as fh path }

-- The switch on the status.
unfoldable pub hand_over : Settings → FileHandle → Bytes → PatchStatus → FileHandle
hand_over settings fh path (patched content) = inject_source fh content path
hand_over settings fh path fail =
    if fail_closed settings
    then inject_source fh (fail_stub path (codes "patch failed")) path
    else fh
hand_over settings fh path skip =
    if fail_closed settings
    then inject_source fh (fail_stub path (codes "file cannot be patched (__halt_compiler)")) path
    else fh

unfoldable pub is_eligible : FileHandle → Bool
is_eligible fh = elim fh.buf [
  | some _ ↦ false
  | none ↦ elim fh.filename [
    | some _ ↦ true
    | none ↦ elim fh.opened_path [ some _ ↦ true | none ↦ false ]
  ]
]

compile_found :
    Engine → Settings → Globals → FileHandle → Option (FilePatch × Bytes) → Globals × FileHandle
compile_found engine settings g fh none = (g, fh)
compile_found engine settings g fh (some (fp, path)) =
    let (g', status) = get_patched engine.disk settings fp path g in
    (g', hand_over settings fh path status)

-- `phpatcher_compile_file`: the handle that goes to the handler behind ours.
unfoldable pub compile_file : Engine → Settings → Globals → FileHandle → Globals × FileHandle
unfolding is_eligible compile_found
compile_file engine settings g fh = elim g.patchset [
  | none ↦ (g, fh)
  | some set ↦
      if is_eligible fh
      then compile_found engine settings g fh (resolve engine g.anchor set fh)
      else (g, fh)
]

-- `phpatcher_resolve_path`, on a name: the answer of the resolver behind ours, or the key of a
-- created file.
created_key : PatchSet → Bytes → Option Bytes
created_key set canon = elim (find set canon) [
  | none ↦ none
  | some fp ↦ if fp.creates then some canon else none
]

unfoldable pub resolve_path : Engine → Globals → Bytes → Option Bytes
unfolding created_key
resolve_path engine g filename = elim (engine.resolve_path filename) [
  | some path ↦ some path
  | none ↦ elim g.patchset [
    | none ↦ none
    | some set ↦ created_key set (engine.canonicalize filename g.anchor)
  ]
]

-- What the stream opener does: it answers itself, or leaves the handle to the opener behind it.
pub data Opened : Type 0 where
  success : FileHandle → Opened
  failure : Opened
  delegated : FileHandle → Opened

fill : FileHandle → Bytes → Bytes → Opened
fill fh content canon = success (record fh {
  buf = some content;
  opened_path = elim fh.opened_path [ some p ↦ some p | none ↦ some canon ];
})

open_status : Settings → FileHandle → Bytes → PatchStatus → Opened
unfolding fill
open_status settings fh canon (patched content) = fill fh content canon
open_status settings fh canon _ =
    if not (fail_closed settings)
    then failure
    else fill fh (fail_stub canon (codes "patch failed")) canon

open_created :
    Engine → Settings → Globals → FileHandle → Bytes → Option FilePatch → Globals × Opened
unfolding open_status
open_created engine settings g fh canon none = (g, delegated fh)
open_created engine settings g fh canon (some fp) =
    let (g', status) = get_patched engine.disk settings fp canon g in
    let answer = open_status settings fh canon status in
    if fp.creates then (g', answer) else (g, delegated fh)

open_named : Engine → Settings → Globals → PatchSet → FileHandle → Bytes → Globals × Opened
unfolding open_created handle_basename
open_named engine settings g set fh name =
    let canon = engine.canonicalize name g.anchor in
    let base = handle_basename fh in
    if not (is_empty base) && has_basename set base
    then open_created engine settings g fh canon (find set canon)
    else (g, delegated fh)

unfoldable pub stream_open : Engine → Settings → Globals → FileHandle → Globals × Opened
unfolding open_named
stream_open engine settings g fh = elim g.patchset [
  | none ↦ (g, delegated fh)
  | some set ↦ elim fh.filename [
    | none ↦ (g, delegated fh)
    | some name ↦ open_named engine settings g set fh name
  ]
]
