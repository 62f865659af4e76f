-- ===== src/Hooks/Policy.antt =====
-- What the compile hook lets run. `set` is the parsed index, `fh` a handle that the hook looks at.
use phpatcher.Base.{
  Bool-cases, Option-cases, Bytes, codes, is_empty, true, false, not, ◌||◌, ◌⊎◌, inl, inr, Option,
  none, some, ◌≡◌, refl, sym, ◌∙◌, arith,
}
use phpatcher.Ed.{FilePatch}
use phpatcher.Extension.{Settings, Globals, Engine, FileHandle, fail_closed}
use phpatcher.Hooks.{
  handle_basename, canonical_path, find_at, resolve, inject_source, hand_over, is_eligible,
  compile_file,
}
use phpatcher.PatchSet.{PatchSet, find, has_basename}
use phpatcher.Produce.{PatchStatus, patched, skip, fail, get_patched, fail_stub}
use phpatcher.Produce.Fresh.{fresh_status, Coherent, get_patched-fresh_status}

module _ (engine : Engine) (settings : Settings) (g : Globals) (set : PatchSet) (fh : FileHandle)
    (fp : FilePatch) (path : Bytes) (active : g.patchset ≡ some set)
    (eligible : is_eligible fh ≡ true)
    (found : resolve engine g.anchor set fh ≡ some (fp, path)) where
  compile_file-hand_over : compile_file engine settings g fh ≡ (
    (get_patched engine.disk settings fp path g).0,
    hand_over settings fh path (get_patched engine.disk settings fp path g).1,
  )
  unfolding compile_file
  compile_file-hand_over = rw (active, eligible, found)

-- What stands in for a patched file under `on_error = fail`: its patched content, or a stub that
-- throws and names the reason.
abbrev pub replacement : Bytes → PatchStatus → Bytes
replacement path (patched content) = content
replacement path fail = fail_stub path (codes "patch failed")
replacement path skip = fail_stub path (codes "file cannot be patched (__halt_compiler)")

-- A handle with a content in its buffer, for the file that another one stands for: it keeps the name
-- and the path that it was opened as, or takes this path where it has none.
pub record Carries (fh out : FileHandle) (content path : Bytes) : Type 0 where
  pub in_buffer : out.buf ≡ some content
  pub same_name : out.filename ≡ fh.filename
  pub opened :
      ((p : Bytes) × (fh.opened_path ≡ some p) × (out.opened_path ≡ some p))
      ⊎ ((fh.opened_path ≡ none) × (out.opened_path ≡ some path))

-- What goes on under `on_error = original`: the patched content, or the very handle.
abbrev pub GoesOn : FileHandle → FileHandle → Bytes → PatchStatus → Type 0
GoesOn fh out path (patched content) = Carries fh out content path
GoesOn fh out path fail = out ≡ fh
GoesOn fh out path skip = out ≡ fh

nameless : (fh : FileHandle) → fh.opened_path ≡ none → fh.filename ≡ none → is_eligible fh ≡ false
unfolding is_eligible
nameless fh e f = elim (Option-cases fh.buf) [
  | inl g ↦ rw (is_eligible, g, f, e) refl
  | inr (b, g) ↦ rw (is_eligible, g) refl
]

inject_source-Carries :
    (fh : FileHandle) (content path : Bytes)
    → is_eligible fh ≡ true
    → Carries fh (inject_source fh content path) content path
unfolding inject_source is_eligible
inject_source-Carries fh content path ok_handle = record {
  in_buffer = refl;
  same_name = refl;
  opened = elim (Option-cases fh.opened_path) [
    | inr (p, e) ↦ inl (p, e, rw e refl)
    | inl e ↦ elim (Option-cases fh.filename) [
      | inr (name, f) ↦ inr (e, rw (e, f) refl)
      | inl f ↦ cc (nameless fh e f, ok_handle)
    ]
  ];
}

hand_over_closed :
    (settings : Settings) (fh : FileHandle) (path : Bytes) (s : PatchStatus)
    → fail_closed settings ≡ true
    → (hand_over settings fh path s).buf ≡ some (replacement path s)
unfolding hand_over inject_source
hand_over_closed settings fh path (patched content) h = refl
hand_over_closed settings fh path fail h = rw h
hand_over_closed settings fh path skip h = rw h

hand_over_open :
    (settings : Settings) (fh : FileHandle) (path : Bytes) (s : PatchStatus)
    → fail_closed settings ≡ false
    → is_eligible fh ≡ true
    → GoesOn fh (hand_over settings fh path s) path s
unfolding hand_over
hand_over_open settings fh path (patched content) h e = inject_source-Carries fh content path e
hand_over_open settings fh path fail h e = rw h refl
hand_over_open settings fh path skip h e = rw h refl

find_at-find :
    (set : PatchSet) (o : Option Bytes) (fp : FilePatch) (path : Bytes)
    → find_at set o ≡ some (fp, path)
    → find set path ≡ some fp
unfolding find_at
find_at-find set none fp path h = cc
find_at-find set (some p) fp path h = ground arith

-- The patch that `phpatcher_resolve` returns is the one of the index under the path it returns.
resolve-find :
    (engine : Engine) (anchor : Bytes) (set : PatchSet) (fh : FileHandle) (fp : FilePatch)
    (path : Bytes)
    → resolve engine anchor set fh ≡ some (fp, path)
    → find set path ≡ some fp
unfolding resolve
resolve-find engine anchor set fh fp path h =
    elim (Bool-cases
      (is_empty (handle_basename fh) || not (has_basename set (handle_basename fh)))) [
        | inl out ↦ absurd (ground arith)
        | inr may ↦ elim (Option-cases (find_at set fh.opened_path)) [
          | inr (hit, e) ↦ find_at-find set fh.opened_path fp path (e ∙ sym (rw (may, e)) ∙ h)
          | inl e ↦
              find_at-find set (canonical_path engine anchor fh) fp path (sym (rw (may, e)) ∙ h)
        ]
      ]

module _ (engine : Engine) (settings : Settings) (g : Globals) (set : PatchSet) (fh : FileHandle)
    (fp : FilePatch) (path : Bytes) (active : g.patchset ≡ some set)
    (eligible : is_eligible fh ≡ true) (found : resolve engine g.anchor set fh ≡ some (fp, path))
    (right : Coherent engine.disk (find set) g) where
  fresh_outcome :
      ((get_patched engine.disk settings fp path g).1 ≡ fresh_status engine.disk g.anchor fp path)
      × Coherent engine.disk (find set) (get_patched engine.disk settings fp path g).0
  fresh_outcome =
      get_patched-fresh_status engine.disk settings (find set) fp path g
        (resolve-find engine g.anchor set fh fp path found) right

  -- Under `on_error = fail` the engine never reads a file that has a patch: it compiles the content
  -- that the patch gives on the file as it is on disk, or, if it gives none, a stub that throws. The
  -- maps stay right for the next call.
  pub compile_file-fail_closed :
      fail_closed settings ≡ true
      → ((compile_file engine settings g fh).1.buf
          ≡ some (replacement path (fresh_status engine.disk g.anchor fp path)))
        × Coherent engine.disk (find set) (compile_file engine settings g fh).0
  compile_file-fail_closed h =
      let (fresh, later) = fresh_outcome in
      rw (compile_file-hand_over engine settings g set fh fp path active eligible found, fresh)
        (hand_over_closed settings fh path _ h, later)

  -- Under `on_error = original` the handle goes on with the content that the patch gives on the file as
  -- it is on disk in its buffer, with its name, and with the path that it was opened as or, if it has
  -- none, the one that the patch was found under; or it goes on unchanged where the patch gives no
  -- content. The maps stay right for the next call.
  pub compile_file-fail_open :
      fail_closed settings ≡ false
      → GoesOn fh
          (compile_file engine settings g fh).1
          path
          (fresh_status engine.disk g.anchor fp path)
        × Coherent engine.disk (find set) (compile_file engine settings g fh).0
  compile_file-fail_open h =
      let (fresh, later) = fresh_outcome in
      rw (compile_file-hand_over engine settings g set fh fp path active eligible found, fresh)
        (hand_over_open settings fh path _ h eligible, later)
