-- ===== src/Tests/Includes.antt =====
-- The include of a created file at a concrete input.
use phpatcher.Base.{
  codes, equal, is_empty, true, false, not, ◌&&◌, [], ◌∷◌, ◌++◌, none, some, ◌≡◌, refl,
}
use phpatcher.Dict.{lookup}
use phpatcher.Ed.{literal, append, FilePatch}
use phpatcher.Extension.{Settings, Globals, Engine}
use phpatcher.Hooks.{resolve_path, stream_open}
use phpatcher.Hooks.Created.{missing_file, served, resolve_path-stream_open}
use phpatcher.Order.{less}
use phpatcher.PatchSet.{PatchSet, basename_of, find, has_basename}
use phpatcher.Produce.{lookup_in}
use phpatcher.Produce.Fresh.{fresh_status, Coherent}
use phpatcher.Search.{lower_bound}

abbrev creating : FilePatch
creating = record {
  commands =
      record { kind = append; start = 0; end = 0; input = literal (codes "<?php") ∷ [] } ∷ [];
  creates = true;
}

abbrev creating_set : PatchSet
creating_set = record {
  index = record { path = codes "/p/new.php"; patch = creating } ∷ [];
  basenames = codes "new.php" ∷ [];
}

abbrev empty_host : Engine
empty_host = record {
  disk = λ p. none;
  realpath = λ p. none;
  resolve_path = λ p. none;
  canonicalize = λ p b. b ++ b'/' ∷ p;
}

abbrev plain_options : Settings
plain_options = record {
  patch_file = codes "/p/x.patch";
  base_dir = codes "/p";
  on_error = none;
  enabled = true;
  strict = true;
  precompute = false;
  cache = true;
  opcache_bind = false;
}

abbrev running : Globals
running = record {
  patchset = some creating_set;
  precomputed = none;
  cached = some [];
  anchor = codes "/p";
  apply_failures = 0;
  read_failures = 0;
  skipped_halt = 0;
  last_error = [];
  warnings = [];
}

running-Coherent : Coherent empty_host.disk (find creating_set) running
unfolding lookup_in lookup
running-Coherent = record {
  of_precomputed = λ path content fp has hit. cc;
  of_cached = λ path content fp has hit. cc;
}

found_new : find creating_set (codes "/p/new.php") ≡ some creating
unfolding find lower_bound less equal
found_new = refl

new_passes :
    (not (is_empty (basename_of (codes "new.php")))
      && has_basename creating_set (basename_of (codes "new.php")))
    ≡ true
unfolding has_basename basename_of lower_bound less equal
new_passes = refl

resolve_path-stream_open_example :
    (resolve_path empty_host running (codes "new.php") ≡ some (codes "/p/new.php"))
    × ((stream_open empty_host plain_options running (missing_file (codes "new.php"))).1
        ≡ served plain_options
            (codes "new.php")
            (codes "/p/new.php")
            (fresh_status empty_host.disk (codes "/p") creating (codes "/p/new.php")))
    × Coherent empty_host.disk
        (find creating_set)
        (stream_open empty_host plain_options running (missing_file (codes "new.php"))).0
resolve_path-stream_open_example =
    resolve_path-stream_open empty_host plain_options running creating_set creating
      (codes "new.php") refl refl found_new refl new_passes running-Coherent
