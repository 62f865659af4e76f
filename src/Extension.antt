-- ===== src/Extension.antt =====
-- phpatcher.cpp, lines 56 to 165: the process-global state and the settings of the extension, and the
-- engine around it. A pointer that may be null is an `Option`. The mutexes and atomics guard single
-- steps: a hook runs here without another thread between its steps.
use phpatcher.Base.{
  if◌then◌else◌, Bytes, codes, equal, ℕ, ◌+◌, ◌%◌, ◌^◌, Bool, true, false, ◌||◌, List, [], ◌∷◌,
  ◌++◌, Option, none, some,
}
use phpatcher.PatchSet.{PatchSet}
use phpatcher.Resolver.{Disk}
use phpatcher.Text.{after_prefix}

-- The INI entries. `on_error` is a C string that may be null.
pub record Settings : Type 0 where
  pub patch_file : Bytes
  pub base_dir : Bytes
  pub on_error : Option Bytes
  pub enabled : Bool
  pub strict : Bool
  pub precompute : Bool
  pub cache : Bool
  pub opcache_bind : Bool

-- A map from canonical paths to patched contents.
abbrev pub Contents : Type 0
Contents = List (Bytes × Bytes)

-- The `g_` variables, and the warnings that were raised, the latest last.
pub record Globals : Type 0 where
  pub patchset : Option PatchSet
  pub precomputed : Option Contents
  pub cached : Option Contents
  pub anchor : Bytes
  pub apply_failures : ℕ
  pub read_failures : ℕ
  pub skipped_halt : ℕ
  pub last_error : Bytes
  pub warnings : List Bytes

-- What the hooks ask of the engine and the operating system: `read_file`; VCWD_REALPATH; the engine's
-- own path resolver; and `canonicalize`, which takes a path and the base directory.
pub record Engine : Type 0 where
  pub disk : Disk
  pub realpath : Bytes → Option Bytes
  pub resolve_path : Bytes → Option Bytes
  pub canonicalize : Bytes → Bytes → Bytes

-- zend_file_handle: `buf` and `len` are the in-memory source, if there is one.
pub record FileHandle : Type 0 where
  pub filename : Option Bytes
  pub opened_path : Option Bytes
  pub buf : Option Bytes

-- The counters are uint64_t.
abbrev pub bump : ℕ → ℕ
bump n = (n + 1) % 2 ^ 64

abbrev pub warn : Settings → Bytes → Globals → Globals
warn settings text g =
    if settings.strict then record g { warnings = g.warnings ++ text ∷ [] } else g

unfoldable pub fail_closed : Settings → Bool
fail_closed settings = elim settings.on_error [
  | none ↦ false
  | some mode ↦ equal mode (codes "fail")
]

unfoldable pub is_prefix : Bytes → Bytes → Bool
is_prefix p s = elim (after_prefix p s) [ none ↦ false | some _ ↦ true ]

-- `src.find(text) != npos`.
unfoldable pub occurs_in : Bytes → Bytes → Bool
unfolding is_prefix
occurs_in text [] = is_prefix text []
occurs_in text (c ∷ s) = is_prefix text (c ∷ s) || occurs_in text s

unfoldable pub has_halt_compiler : Bytes → Bool
unfolding occurs_in
has_halt_compiler src = occurs_in (codes "__halt_compiler") src
