-- ===== src/Lifecycle.antt =====
-- phpatcher.cpp, lines 684 to 705 and 741 to 878: the base directory, the start and the shutdown of the
-- module. Memory does not run out here, so `new (std::nothrow)` gives an object.
pub mod Startup
pub mod Caches
use phpatcher.Base.{
  if◌then◌else◌, Bytes, codes, is_empty, Result, ok, err, ℕ, Bool, true, false, not, List, [], ◌∷◌,
  ◌++◌, Option, none, some,
}
use phpatcher.Bundle.{parse}
use phpatcher.Extension.{Settings, Globals, Engine}
use phpatcher.PatchSet.{Entry, PatchSet, recanonicalize}
use phpatcher.Produce.{precompute}

-- What one of the engine's function pointers points to.
pub data Handler : Type 0 where
  ours : Handler
  foreign : ℕ → Handler

pub record Slots : Type 0 where
  pub compile_slot : Handler
  pub resolve_slot : Handler
  pub stream_slot : Handler

-- The `phpatcher_orig_` variables.
pub record Originals : Type 0 where
  pub compile_original : Option Handler
  pub resolve_original : Option Handler
  pub stream_original : Option Handler

abbrev pub no_originals : Originals
no_originals = record { compile_original = none; resolve_original = none; stream_original = none }

-- The process: the module's globals, the engine's pointers, and what was fed to the system id.
pub record Process : Type 0 where
  pub globals : Globals
  pub slots : Slots
  pub originals : Originals
  pub entropy : List Bytes

-- `phpatcher_base_dir`; `cwd` is the answer of VCWD_GETCWD.
configured_dir : Option Bytes → Settings → Bytes
configured_dir cwd settings =
    if is_empty settings.base_dir
    then elim cwd [ some dir ↦ dir | none ↦ [] ]
    else settings.base_dir

unfoldable pub base_dir_of : Engine → Option Bytes → Settings → Bytes
unfolding configured_dir
base_dir_of engine cwd settings =
    let dir = configured_dir cwd settings in
    if is_empty dir then dir else elim (engine.realpath dir) [ some real ↦ real | none ↦ dir ]

-- The function that the index is re-keyed with.
unfoldable pub real_key : Engine → Bytes → Bytes
real_key engine path = elim (engine.realpath path) [ some real ↦ real | none ↦ path ]

abbrev raise : Bytes → Process → Process
raise text p = record p {
  globals = record p.globals { warnings = p.globals.warnings ++ text ∷ [] };
}

-- Whether a file of the index is created by its patch.
unfoldable pub has_virtual : List Entry → Bool
has_virtual [] = false
has_virtual (e ∷ es) = if e.patch.creates then true else has_virtual es

unfoldable pub install_slots : Bool → Slots → Slots
install_slots virtual s =
    if virtual
    then record { compile_slot = ours; resolve_slot = ours; stream_slot = ours }
    else record s { compile_slot = ours }

unfoldable pub install_originals : Bool → Slots → Originals → Originals
install_originals virtual s o =
    if virtual
    then record {
      compile_original = some s.compile_slot;
      resolve_original = some s.resolve_slot;
      stream_original = some s.stream_slot;
    }
    else record o { compile_original = some s.compile_slot }

-- The globals of a process whose patch is `set`.
unfoldable pub loaded_globals : Engine → Settings → PatchSet → Globals → Globals
loaded_globals engine settings set g =
    let h : Globals = record g { patchset = some set; cached = some [] } in
    if settings.precompute then precompute engine.disk set h else h

-- A parsed patch with at least one section.
install : Engine → Settings → Bytes → PatchSet → Process → Process
unfolding real_key has_virtual install_slots install_originals loaded_globals
install engine settings text set p =
    let rekeyed = recanonicalize (real_key engine) set in
    record {
      globals = loaded_globals engine settings rekeyed p.globals;
      slots = install_slots (has_virtual rekeyed.index) p.slots;
      originals = install_originals (has_virtual rekeyed.index) p.slots p.originals;
      entropy =
          if settings.opcache_bind then p.entropy ++ text ∷ p.globals.anchor ∷ [] else p.entropy;
    }

load_parsed : Engine → Settings → Bytes → Process → Result Bytes PatchSet → Process
unfolding install
load_parsed engine settings text p (err error) =
    raise
      (codes "phpatcher: failed to parse patch '"
        ++ (settings.patch_file ++ (codes "': " ++ error)))
      p
load_parsed engine settings text p (ok set) =
    if is_empty set.index then p else install engine settings text set p

load_text : Engine → Option Bytes → Settings → Process → Option Bytes → Process
unfolding load_parsed
load_text engine cwd settings p none =
    raise (codes "phpatcher: cannot read patch file '" ++ (settings.patch_file ++ codes "'")) p
load_text engine cwd settings p (some text) =
    let dir = base_dir_of engine cwd settings in
    load_parsed engine settings text (record p { globals = record p.globals { anchor = dir } })
      (parse (λ path. engine.canonicalize path dir) text)

-- PHP_MINIT_FUNCTION.
unfoldable pub minit : Engine → Option Bytes → Settings → Process → Process
unfolding load_text
minit engine cwd settings p =
    if not settings.enabled
    then p
    else if is_empty settings.patch_file
    then p
    else load_text engine cwd settings p (engine.disk settings.patch_file)

-- A pointer is put back only while it is still ours.
is_ours : Handler → Bool
is_ours ours = true
is_ours (foreign n) = false

unfoldable pub unchain : Option Handler → Handler → Option Handler × Handler
unfolding is_ours
unchain none slot = (none, slot)
unchain (some h) slot = if is_ours slot then (none, h) else (some h, slot)

unfoldable pub release : Originals → Slots → Originals × Slots
unfolding unchain
release o s =
    let (co, cs) = unchain o.compile_original s.compile_slot in
    let (ro, rs) = unchain o.resolve_original s.resolve_slot in
    let (so, ss) = unchain o.stream_original s.stream_slot in
    (
      record { compile_original = co; resolve_original = ro; stream_original = so },
      record { compile_slot = cs; resolve_slot = rs; stream_slot = ss },
    )

-- PHP_MSHUTDOWN_FUNCTION.
unfoldable pub mshutdown : Process → Process
unfolding release
mshutdown p = record p {
  globals = record p.globals { patchset = none; precomputed = none; cached = none; anchor = [] };
  originals = (release p.originals p.slots).0;
  slots = (release p.originals p.slots).1;
}
