-- ===== src/PatchSet.antt =====
-- patch.cpp, `PatchSet` but for the parser: lines 446 to 449, 509 to 546 and 668 to 682. The index is
-- a vector of (path, patch) pairs sorted by path, beside the sorted basenames of the paths.
pub mod Lookup
pub mod Basenames
pub mod Duplicates
use phpatcher.Base.{
  ◌==◌, if◌then◌else◌, Bytes, codes, equal, get_elem?, Result, ok, err, Bool, false, not, List, [],
  ◌∷◌, ◌++◌, map, Option, none, some, ◌≡◌, refl,
}
use phpatcher.Ed.{FilePatch}
use phpatcher.Order.{less}
use phpatcher.Search.{sort_by, unique, lower_bound}

pub record Entry : Type 0 where
  pub path : Bytes
  pub patch : FilePatch

pub record PatchSet : Type 0 where
  pub index : List Entry
  pub basenames : List Bytes

abbrev pub empty_set : PatchSet
empty_set = record { index = []; basenames = [] }

abbrev pub path_of : Entry → Bytes
path_of e = e.path

-- The bytes behind the last `/`: `name` holds those behind the last one so far.
base_from : Bytes → Bytes → Bytes
base_from name [] = name
base_from name (c ∷ s) = base_from (if c == b'/' then [] else name ++ c ∷ []) s

unfoldable pub basename_of : Bytes → Bytes
unfolding base_from
basename_of path = base_from [] path

-- The basenames: collected, sorted, and each one kept once.
unfoldable pub basenames_of : List Entry → List Bytes
basenames_of index = unique (sort_by (λ b. b) (map (λ e. basename_of e.path) index))

-- The loop over neighbours.
unfoldable pub first_duplicate : List Entry → Option Bytes
first_duplicate [] = none
first_duplicate (e ∷ []) = none
first_duplicate (e ∷ f ∷ es) = if equal f.path e.path then some f.path else first_duplicate (f ∷ es)

unfoldable pub finalize : List Entry → Result Bytes PatchSet
unfolding first_duplicate
finalize entries =
    let index = sort_by path_of entries in
    elim (first_duplicate index) [
      | some path ↦ err (codes "duplicate patch section for " ++ path)
      | none ↦ ok (record { index = index; basenames = basenames_of index })
    ]

unfoldable pub recanonicalize : (Bytes → Bytes) → PatchSet → PatchSet
recanonicalize fn set =
    let index = sort_by path_of (map {A = Entry} (λ e. record e { path = fn e.path }) set.index) in
    record { index = index; basenames = basenames_of index }

-- The entry at the lower bound, if its path is the one asked for.
hit : Bytes → Option Entry → Option FilePatch
hit path none = none
hit path (some e) = if equal e.path path then some e.patch else none

unfoldable pub find : PatchSet → Bytes → Option FilePatch
unfolding hit
find set path = hit path (get_elem? set.index (lower_bound (λ e. less e.path path) set.index))

-- std::binary_search: the lower bound is no end, and the element there is not larger.
found_at : Bytes → Option Bytes → Bool
found_at b none = false
found_at b (some x) = not (less b x)

unfoldable pub has_basename : PatchSet → Bytes → Bool
unfolding found_at
has_basename set b =
    found_at b (get_elem? set.basenames (lower_bound (λ x. less x b) set.basenames))

basename_of_path : basename_of (codes "/a/b.php") ≡ codes "b.php"
unfolding basename_of
basename_of_path = refl
