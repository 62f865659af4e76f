-- ===== src/Tests/Lifetimes.antt =====
-- The start and the shutdown at concrete inputs.
use phpatcher.Base.{if◌then◌else◌, Bytes, codes, equal, true, false, [], ◌∷◌, none, some, ◌≡◌, refl}
use phpatcher.Bundle.{looks_like_ed_bundle, flush_current, run, finish, parse_ed_bundle, parse}
use phpatcher.Directive.{parse_ed_command, parse_r_directive, parse_ed_input_piece}
use phpatcher.Ed.{literal, delete, append}
use phpatcher.Extension.{Settings, Engine}
use phpatcher.Lifecycle.{
  ours, foreign, no_originals, Process, base_dir_of, real_key, has_virtual, install_slots,
  loaded_globals, minit, mshutdown,
}
use phpatcher.Lifecycle.Caches.{minit-Coherent}
use phpatcher.Lifecycle.Startup.{mshutdown-minit, HookedFor, minit-HookedFor}
use phpatcher.Number.{read_uint}
use phpatcher.Order.{less}
use phpatcher.PatchSet.{
  PatchSet, path_of, basename_of, basenames_of, finalize, recanonicalize, find,
}
use phpatcher.Produce.{precompute}
use phpatcher.Produce.Fresh.{Coherent}
use phpatcher.Resolver.{Disk}
use phpatcher.Search.{sort_by, unique}
use phpatcher.Search.Sorting.{IsStrict}
use phpatcher.Text.{is_blank, scan_lines, split_lines, rtrim, drop_while, is_space, after_prefix}

abbrev patch_text : Bytes
patch_text = codes "# phpatcher-ed v1\n# file: /p/a.php\n1d\n# newfile: /p/b.php\nx\n.\n"

abbrev patch_disk : Disk
patch_disk path = if equal path (codes "/p/x.patch") then some patch_text else none

abbrev host : Engine
host = record {
  disk = patch_disk;
  realpath = λ p. some p;
  resolve_path = λ p. some p;
  canonicalize = λ p b. p;
}

abbrev options : Settings
options = record {
  patch_file = codes "/p/x.patch";
  base_dir = codes "/p";
  on_error = none;
  enabled = true;
  strict = true;
  precompute = true;
  cache = true;
  opcache_bind = true;
}

abbrev new_process : Process
new_process = record {
  globals = record {
    patchset = none;
    precomputed = none;
    cached = none;
    anchor = [];
    apply_failures = 0;
    read_failures = 0;
    skipped_halt = 0;
    last_error = [];
    warnings = [];
  };
  slots = record { compile_slot = foreign 1; resolve_slot = foreign 2; stream_slot = foreign 3 };
  originals = no_originals;
  entropy = [];
}

mshutdown-minit_example :
    let q = mshutdown (minit host none options new_process) in
    (q.slots ≡ new_process.slots) × (q.originals ≡ no_originals) × (q.globals.patchset ≡ none)
mshutdown-minit_example = mshutdown-minit host none options new_process refl

minit-HookedFor_example :
    let q = minit host none options new_process in
    HookedFor q.globals.patchset new_process.slots q.slots
minit-HookedFor_example = minit-HookedFor host none options new_process refl

abbrev the_set : PatchSet
the_set = record {
  index =
      record {
        path = codes "/p/a.php";
        patch = record {
          commands = record { kind = delete; start = 1; end = 1; input = [] } ∷ [];
          creates = false;
        };
      }
      ∷ record {
        path = codes "/p/b.php";
        patch = record {
          commands =
              record { kind = append; start = 0; end = 0; input = literal (codes "x") ∷ [] } ∷ [];
          creates = true;
        };
      }
      ∷ [];
  basenames = codes "a.php" ∷ codes "b.php" ∷ [];
}

minit_loads : (minit host none options new_process).globals.patchset ≡ some the_set
unfolding minit base_dir_of equal parse parse_ed_bundle looks_like_ed_bundle split_lines scan_lines
    run finish finalize recanonicalize loaded_globals precompute real_key has_virtual drop_while
    is_blank after_prefix rtrim is_space flush_current parse_ed_command read_uint sort_by less
    parse_ed_input_piece basenames_of parse_r_directive unique basename_of
minit_loads = refl

minit_hooks :
    (minit host none options new_process).slots
    ≡ record { compile_slot = ours; resolve_slot = ours; stream_slot = ours }
unfolding minit base_dir_of equal parse parse_ed_bundle looks_like_ed_bundle split_lines scan_lines
    run finish finalize recanonicalize loaded_globals precompute real_key has_virtual drop_while
    is_blank after_prefix rtrim is_space flush_current parse_ed_command read_uint sort_by less
    parse_ed_input_piece basenames_of parse_r_directive unique basename_of install_slots
minit_hooks = refl

the_set-IsStrict : IsStrict path_of the_set.index
unfolding less
the_set-IsStrict = ((refl, tt), (tt, tt))

minit-Coherent_example :
    Coherent patch_disk (find the_set) (minit host none options new_process).globals
minit-Coherent_example =
    minit-Coherent host none options new_process the_set refl refl minit_loads the_set-IsStrict
