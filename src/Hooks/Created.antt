-- ===== src/Hooks/Created.antt =====
-- The include of a file that is not on disk and that the patch creates.
use phpatcher.Base.{
  if◌then◌else◌, Bool-cases, Bytes, codes, is_empty, true, not, ◌&&◌, inl, inr, none, some, ◌≡◌,
  refl,
}
use phpatcher.Ed.{FilePatch}
use phpatcher.Extension.{Settings, Globals, Engine, FileHandle, fail_closed}
use phpatcher.Hooks.{
  handle_basename, created_key, resolve_path, Opened, success, failure, fill, open_status,
  open_created, open_named, stream_open,
}
use phpatcher.PatchSet.{PatchSet, basename_of, find, has_basename}
use phpatcher.Produce.{PatchStatus, patched, skip, fail, get_patched, fail_stub}
use phpatcher.Produce.Fresh.{fresh_status, Coherent, get_patched-fresh_status}

-- The handle with which the engine opens it.
abbrev pub missing_file : Bytes → FileHandle
missing_file name = record { filename = some name; opened_path = none; buf = none }

-- What the opener answers for an outcome: the content or, under `on_error = fail`, a stub; else the
-- open fails as if the file were absent.
abbrev pub served : Settings → Bytes → Bytes → PatchStatus → Opened
served settings name path status =
    let opened : Bytes → Opened = λ content.
      success (record { filename = some name; opened_path = some path; buf = some content }) in
    elim status [
      | patched content ↦ opened content
      | skip ↦
          if fail_closed settings then opened (fail_stub path (codes "patch failed")) else failure
      | fail ↦
          if fail_closed settings then opened (fail_stub path (codes "patch failed")) else failure
    ]

open_status-served :
    (settings : Settings) (name path : Bytes) (s : PatchStatus)
    → open_status settings (missing_file name) path s ≡ served settings name path s
unfolding open_status fill
open_status-served settings name path (patched content) = refl
open_status-served settings name path skip = elim (Bool-cases (fail_closed settings)) [
  | inl e ↦ rw e refl
  | inr e ↦ rw e refl
]
open_status-served settings name path fail = elim (Bool-cases (fail_closed settings)) [
  | inl e ↦ rw e refl
  | inr e ↦ rw e refl
]

module _ (engine : Engine) (settings : Settings) (g : Globals) (set : PatchSet) (fp : FilePatch)
    (name : Bytes) (active : g.patchset ≡ some set) (missing : engine.resolve_path name ≡ none)
    (found : find set (engine.canonicalize name g.anchor) ≡ some fp) (creates : fp.creates ≡ true)
    (passes : (not (is_empty (basename_of name)) && has_basename set (basename_of name))
      ≡ true) where
  resolve_path-created : resolve_path engine g name ≡ some (engine.canonicalize name g.anchor)
  unfolding resolve_path created_key
  resolve_path-created = rw (missing, resolve_path, active, created_key, found, creates)

  stream_open-created :
      let path = engine.canonicalize name g.anchor in
      stream_open engine settings g (missing_file name) ≡ (
        (get_patched engine.disk settings fp path g).0,
        open_status settings
            (missing_file name)
            path
            (get_patched engine.disk settings fp path g).1,
      )
  unfolding stream_open open_named open_created handle_basename
  stream_open-created = rw (active, passes, found, creates)

module _ (engine : Engine) (settings : Settings) (g : Globals) (set : PatchSet) (fp : FilePatch)
    (name : Bytes) (active : g.patchset ≡ some set) (missing : engine.resolve_path name ≡ none)
    (found : find set (engine.canonicalize name g.anchor) ≡ some fp) (creates : fp.creates ≡ true)
    (passes : (not (is_empty (basename_of name)) && has_basename set (basename_of name)) ≡ true)
    (right : Coherent engine.disk (find set) g) where
  -- A file that the patch creates can be included though it is not on disk: the path resolver gives its
  -- key, and the stream opener serves under that key the content that the patch gives, or what the
  -- policy puts in its place. The maps stay right.
  pub resolve_path-stream_open :
      let path = engine.canonicalize name g.anchor in
      (resolve_path engine g name ≡ some path)
      × ((stream_open engine settings g (missing_file name)).1
          ≡ served settings name path (fresh_status engine.disk g.anchor fp path))
      × Coherent engine.disk (find set) (stream_open engine settings g (missing_file name)).0
  resolve_path-stream_open =
      let path = engine.canonicalize name g.anchor in
      let (fresh, later) =
        get_patched-fresh_status engine.disk settings (find set) fp path g found right in
      let resolved =
        resolve_path-created engine settings g set fp name active missing found creates passes in
      (
        resolved,
        rw
            (
              stream_open-created engine settings g set fp name active missing found creates passes,
              fresh,
            )
            (open_status-served settings name path _),
        rw (stream_open-created engine settings g set fp name active missing found creates passes)
            later,
      )
