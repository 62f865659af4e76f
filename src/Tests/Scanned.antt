-- ===== src/Tests/Scanned.antt =====
-- Two files in a byte index, and the walk over a small tree.
use phpatcher.Base.{
  Bytes, codes, equal, length, All, ok, ◌^◌, ◌<◌, false, List, [], ◌∷◌, map, inl, none, some, ◌≡◌,
  refl, subst, arith,
}
use phpatcher.Dict.{lookup, assign}
use phpatcher.Generator.{is_ws, trim_end, trim}
use phpatcher.IndexFile.{pack, IndexOptions, write_index, Loaded, load, find_postings}
use phpatcher.IndexFile.RoundTrip.{FitsFile}
use phpatcher.Indexer.{
  lower, to_lower, push_postings, ensure_id, add_posting, scan_line, scan_bytes, NormFile,
}
use phpatcher.Indexer.Files.{file_lines}
use phpatcher.Indexer.Serial.{begin_file, scan_files, no_scan}
use phpatcher.Indexer.Serial.Located.{all_occurrences}
use phpatcher.Indexer.Serial.Occurrences.{IsCountable}
use phpatcher.Indexer.Serial.Stored.{names_of, find_postings-scan_files}
use phpatcher.Indexer.Walk.{Listing, no_entry, directory, regular, behind_dot, ext_of, is_in, walk}
use phpatcher.Indexer.Walk.Selected.{all_files, selected, walk-selected}
use phpatcher.Text.{scan_lines, drop_while}

abbrev two_files : List NormFile
two_files =
    record { content = some (codes "echo 1;\n"); rel = codes "a.php" }
    ∷ record { content = some (codes "}\n echo 1;"); rel = codes "b.php" }
    ∷ []

abbrev byte_options : IndexOptions
byte_options = record { normalize = false; min_len = 6; max_postings = 0 }

countable :
    (t : Bytes)
    → length (file_lines t) < 2 ^ 32
    → (s : Bytes) → some t ≡ some s
    → length (file_lines s) < 2 ^ 32
countable t small s e =
    let same : t ≡ s = cc in subst (λ (u : Bytes). length (file_lines u) < 2 ^ 32) same small

two_files-IsCountable : All IsCountable two_files
unfolding scan_lines
two_files-IsCountable = (
  countable (codes "echo 1;\n") (omega arith),
  (countable (codes "}\n echo 1;") (omega arith), tt),
)

scanned : (scan_files 6 two_files no_scan).index ≡ record {
  files = codes "a.php" ∷ codes "b.php" ∷ [];
  lines = (codes "echo 1;", pack 0 1 ∷ pack 1 2 ∷ []) ∷ [];
}
unfolding scan_files begin_file scan_bytes scan_line add_posting ensure_id push_postings lookup
    assign trim trim_end is_ws drop_while equal
scanned = refl

scanned-FitsFile : FitsFile (scan_files 6 two_files no_scan).index
unfolding lookup
scanned-FitsFile = rw scanned (record {
  file_count = omega arith;
  paths = (omega arith, (omega arith, tt));
  key_count = omega arith;
  keys = ((omega arith, omega arith), tt);
  unique = (refl, tt);
})

find_postings-scan_files_example :
    (loaded : Loaded) × (load (write_index byte_options (scan_files 6 two_files no_scan).index).buf
      ≡ ok (loaded, []))
    × (names_of loaded.files (find_postings loaded (codes "echo 1;"))
        ≡ all_occurrences 6 (codes "echo 1;") two_files)
find_postings-scan_files_example =
    find_postings-scan_files byte_options two_files (codes "echo 1;") (omega arith)
      two_files-IsCountable scanned-FitsFile (inl refl)

-- A directory that is left out, and files with two extensions.
abbrev small_tree : Listing
small_tree = directory (codes ".git") (regular (codes "x.php") (some []) no_entry) (
    directory (codes "lib") (regular (codes "b.PHP") (some []) no_entry)
      (regular (codes "a.php") none (regular (codes "a.txt") none no_entry)))

walk-selected_example :
    walk (λ p. p) (codes ".git" ∷ []) (codes "php" ∷ []) [] small_tree
    ≡ selected (codes ".git" ∷ []) (codes "php" ∷ []) (all_files (λ p. p) [] [] small_tree)
walk-selected_example =
    walk-selected (λ p. p) (codes ".git" ∷ []) (codes "php" ∷ []) [] [] small_tree refl

two_found :
    map (λ f. f.rel) (walk (λ p. p) (codes ".git" ∷ []) (codes "php" ∷ []) [] small_tree)
    ≡ codes "lib/b.PHP" ∷ codes "a.php" ∷ []
unfolding walk is_in ext_of behind_dot to_lower lower equal
two_found = refl
