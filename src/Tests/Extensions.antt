-- ===== src/Tests/Extensions.antt =====
-- The resolver, the maps and the hooks at concrete inputs.
use phpatcher.Base.{
  if◌then◌else◌, Bytes, codes, equal, ok, true, false, [], ◌∷◌, ◌↔◌, none, some, ◌≡◌, refl,
}
use phpatcher.Dict.{lookup}
use phpatcher.Ed.{EdRef, empty_ref, delete, FilePatch}
use phpatcher.Extension.{Settings, Globals, Engine, FileHandle, fail_closed}
use phpatcher.Hooks.{resolve, is_eligible, compile_file}
use phpatcher.Hooks.Policy.{replacement, GoesOn, compile_file-fail_closed, compile_file-fail_open}
use phpatcher.Order.{less}
use phpatcher.PatchSet.{PatchSet, basename_of, find, has_basename}
use phpatcher.Produce.{lookup_in, get_patched, precompute}
use phpatcher.Produce.Fresh.{fresh_status, Coherent, get_patched-fresh_status}
use phpatcher.Produce.Warm.{content_or, precompute-fresh_status}
use phpatcher.Resolver.{
  Disk, split_corpus_lines, load_file, cached_lines, length_matches, resolve_cached, resolve_ref,
}
use phpatcher.Resolver.Guards.{IsCache, resolve_cached-resolve_ref, Resolves, resolve_ref_iff}
use phpatcher.Search.{lower_bound}

abbrev lib_text : Bytes
lib_text = codes "one\r\ntwo\nthree\n"

-- A disk with two files.
abbrev two_files : Disk
two_files path =
    if equal path (codes "/p/lib.php")
    then some lib_text
    else if equal path (codes "/p/b.php")
    then some (codes "x\ny\n")
    else none

abbrev middle_ref : EdRef
middle_ref = record empty_ref { path = codes "lib.php"; begin = 1; end = 2; bytes = some 8 }

resolve_ref_iff_example :
    (resolve_ref two_files (codes "/p") middle_ref ≡ ok (codes "one" ∷ codes "two" ∷ []))
    ↔ Resolves two_files (codes "/p") middle_ref (codes "one" ∷ codes "two" ∷ [])
resolve_ref_iff_example =
    resolve_ref_iff two_files (codes "/p") middle_ref (codes "one" ∷ codes "two" ∷ [])

resolve_middle : resolve_ref two_files (codes "/p") middle_ref ≡ ok (codes "one" ∷ codes "two" ∷ [])
unfolding resolve_ref cached_lines lookup load_file split_corpus_lines length_matches equal
resolve_middle = refl

no_cache_lem : IsCache two_files []
unfolding lookup
no_cache_lem full entry h = cc

resolve_cached-resolve_ref_example :
    ((resolve_cached two_files (codes "/p") [] middle_ref).1
      ≡ resolve_ref two_files (codes "/p") middle_ref)
    × IsCache two_files (resolve_cached two_files (codes "/p") [] middle_ref).0
resolve_cached-resolve_ref_example =
    resolve_cached-resolve_ref two_files (codes "/p") [] middle_ref no_cache_lem

abbrev set_of_b : PatchSet
set_of_b = record {
  index =
      record {
        path = codes "/p/b.php";
        patch = record {
          commands = record { kind = delete; start = 1; end = 1; input = [] } ∷ [];
          creates = false;
        };
      }
      ∷ [];
  basenames = codes "b.php" ∷ [];
}

abbrev patch_of_b : FilePatch
patch_of_b = record {
  commands = record { kind = delete; start = 1; end = 1; input = [] } ∷ [];
  creates = false;
}

abbrev engine : Engine
engine = record {
  disk = two_files;
  realpath = λ p. some p;
  resolve_path = λ p. some p;
  canonicalize = λ p b. p;
}

abbrev closed : Settings
closed = record {
  patch_file = codes "/p/x.patch";
  base_dir = codes "/p";
  on_error = some (codes "fail");
  enabled = true;
  strict = true;
  precompute = true;
  cache = true;
  opcache_bind = true;
}

abbrev opened : Settings
opened = record closed { on_error = some (codes "original") }

abbrev started : Globals
started = record {
  patchset = some set_of_b;
  precomputed = none;
  cached = some [];
  anchor = codes "/p";
  apply_failures = 0;
  read_failures = 0;
  skipped_halt = 0;
  last_error = [];
  warnings = [];
}

started-Coherent : Coherent two_files (find set_of_b) started
unfolding lookup_in lookup
started-Coherent = record {
  of_precomputed = λ path content fp has hit. cc;
  of_cached = λ path content fp has hit. cc;
}

abbrev handle_of_b : FileHandle
handle_of_b = record {
  filename = some (codes "b.php");
  opened_path = some (codes "/p/b.php");
  buf = none;
}

handle_of_b-is_eligible : is_eligible handle_of_b ≡ true
unfolding is_eligible
handle_of_b-is_eligible = refl

find_b : find set_of_b (codes "/p/b.php") ≡ some patch_of_b
unfolding find lower_bound less equal
find_b = refl

resolve_b : resolve engine (codes "/p") set_of_b handle_of_b ≡ some (patch_of_b, codes "/p/b.php")
unfolding resolve find lower_bound less equal has_basename basename_of
resolve_b = refl

get_patched-fresh_status_example :
    ((get_patched two_files closed patch_of_b (codes "/p/b.php") started).1
      ≡ fresh_status two_files (codes "/p") patch_of_b (codes "/p/b.php"))
    × Coherent two_files
        (find set_of_b)
        (get_patched two_files closed patch_of_b (codes "/p/b.php") started).0
get_patched-fresh_status_example =
    get_patched-fresh_status two_files closed (find set_of_b) patch_of_b (codes "/p/b.php") started
      find_b started-Coherent

precompute-fresh_status_example :
    lookup_in (precompute two_files set_of_b started).precomputed (codes "/p/b.php")
    ≡ content_or (fresh_status two_files (codes "/p") patch_of_b (codes "/p/b.php")) none
precompute-fresh_status_example =
    precompute-fresh_status two_files set_of_b started (codes "/p/b.php") patch_of_b (tt, tt) find_b

compile_file-fail_closed_example :
    ((compile_file engine closed started handle_of_b).1.buf
      ≡ some (
          replacement
            (codes "/p/b.php")
            (fresh_status two_files (codes "/p") patch_of_b (codes "/p/b.php"))))
    × Coherent two_files (find set_of_b) (compile_file engine closed started handle_of_b).0
compile_file-fail_closed_example =
    compile_file-fail_closed engine closed started set_of_b handle_of_b patch_of_b
      (codes "/p/b.php") refl handle_of_b-is_eligible resolve_b started-Coherent
      (unfold fail_closed equal in refl)

compile_file-fail_open_example :
    GoesOn handle_of_b
      (compile_file engine opened started handle_of_b).1
      (codes "/p/b.php")
      (fresh_status two_files (codes "/p") patch_of_b (codes "/p/b.php"))
    × Coherent two_files (find set_of_b) (compile_file engine opened started handle_of_b).0
compile_file-fail_open_example =
    compile_file-fail_open engine opened started set_of_b handle_of_b patch_of_b (codes "/p/b.php")
      refl handle_of_b-is_eligible resolve_b started-Coherent (unfold fail_closed equal in refl)
