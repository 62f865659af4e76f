-- ===== src/Indexer/Walk.antt =====
-- tools/indexer.cpp, lines 176 to 180 and 443 to 470: the walk over the directories. What the iterator
-- of the standard library finds in a directory is a listing; an error of the iterator, which ends the
-- program, and the counts of the summary are left out.
pub mod Selected
use phpatcher.Base.{
  ◌==◌, if◌then◌else◌, Bytes, equal, Bool, false, ◌||◌, List, [], ◌∷◌, ◌++◌, Option, none, some,
}
use phpatcher.Indexer.{to_lower, NormFile}
use phpatcher.Indexer.Files.{found}

-- The entries of a directory: directories, with what is in them, regular files, and anything else.
pub data Listing : Type 0 where
  no_entry : Listing
  directory : Bytes → Listing → Listing → Listing
  regular : Bytes → Option Bytes → Listing → Listing
  special : Bytes → Listing → Listing

-- What stands behind the last dot.
unfoldable pub behind_dot : Bytes → Option Bytes
behind_dot [] = none
behind_dot (c ∷ s) = elim (behind_dot s) [
  | none ↦ if c == b'.' then some s else none
  | some e ↦ some e
]

-- `path::extension` without its dot: a dot at the start of the name begins none.
unfoldable pub ext_of : Bytes → Bytes
unfolding behind_dot to_lower
ext_of [] = []
ext_of (c ∷ s) = elim (behind_dot s) [ none ↦ [] | some e ↦ to_lower e ]

-- `unordered_set::count`.
unfoldable pub is_in : Bytes → List Bytes → Bool
is_in x [] = false
is_in x (y ∷ ys) = equal x y || is_in x ys

-- The loop over the entries, below `above`, the path of the directory under the root. `relative` is
-- `fs::relative` on such a path, which looks at the symbolic links on the disk.
unfoldable pub walk : (Bytes → Bytes) → List Bytes → List Bytes → Bytes → Listing → List NormFile
unfolding is_in ext_of
walk relative excludes exts above no_entry = []
walk relative excludes exts above (directory name inside rest) =
    let found = walk relative excludes exts (above ++ (name ++ b'/' ∷ [])) inside in
    (if is_in name excludes then [] else found) ++ walk relative excludes exts above rest
walk relative excludes exts above (regular name content rest) =
    let others = walk relative excludes exts above rest in
    if is_in (ext_of name) exts
    then record { content = content; rel = relative (above ++ name) } ∷ others
    else others
walk relative excludes exts above (special name rest) = walk relative excludes exts above rest
