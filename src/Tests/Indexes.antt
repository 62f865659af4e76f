-- ===== src/Tests/Indexes.antt =====
-- Indexes at concrete inputs.
use phpatcher.Base.{codes, equal, ok, true, false, List, [], ◌∷◌, map, Perm, ◌↔◌, some, ◌≡◌, refl}
use phpatcher.Ed.{delete, FilePatch, empty_patch}
use phpatcher.Order.{less}
use phpatcher.PatchSet.{
  Entry, PatchSet, path_of, basename_of, basenames_of, finalize, find, has_basename,
}
use phpatcher.PatchSet.Basenames.{has_basename-finalize, find-has_basename}
use phpatcher.PatchSet.Duplicates.{is_ok, paths, distinct, finalize-distinct, finalize-IsStrict}
use phpatcher.PatchSet.Lookup.{section_for, contains, find-finalize}
use phpatcher.Search.{sort_by, unique, lower_bound}
use phpatcher.Search.Sorting.{IsStrict}

abbrev deletes_first : FilePatch
deletes_first = record {
  commands = record { kind = delete; start = 1; end = 1; input = [] } ∷ [];
  creates = false;
}

abbrev sections : List Entry
sections =
    record { path = codes "/p/b.php"; patch = deletes_first }
    ∷ record { path = codes "/p/a.php"; patch = empty_patch }
    ∷ []

abbrev sorted_set : PatchSet
sorted_set = record {
  index =
      record { path = codes "/p/a.php"; patch = empty_patch }
      ∷ record { path = codes "/p/b.php"; patch = deletes_first }
      ∷ [];
  basenames = codes "a.php" ∷ codes "b.php" ∷ [];
}

finalize-sections : finalize sections ≡ ok sorted_set
unfolding finalize sort_by less equal basenames_of unique basename_of
finalize-sections = refl

find_second : find sorted_set (codes "/p/b.php") ≡ some deletes_first
unfolding find lower_bound less equal
find_second = refl

find-finalize_example : find sorted_set (codes "/p/b.php") ≡ section_for (codes "/p/b.php") sections
find-finalize_example = find-finalize sections sorted_set (codes "/p/b.php") finalize-sections

finalize-distinct_example : (is_ok (finalize sections) ≡ true) ↔ (distinct (paths sections) ≡ true)
finalize-distinct_example = finalize-distinct sections

finalize-IsStrict_example : IsStrict path_of sorted_set.index × Perm sorted_set.index sections
finalize-IsStrict_example = finalize-IsStrict sections sorted_set finalize-sections

has_basename-finalize_example :
    has_basename sorted_set (codes "a.php")
    ≡ contains (codes "a.php") (map (λ e. basename_of e.path) sections)
has_basename-finalize_example =
    has_basename-finalize sections sorted_set (codes "a.php") finalize-sections

find-has_basename_example : has_basename sorted_set (basename_of (codes "/p/b.php")) ≡ true
find-has_basename_example =
    find-has_basename sections sorted_set (codes "/p/b.php") deletes_first finalize-sections
      find_second
