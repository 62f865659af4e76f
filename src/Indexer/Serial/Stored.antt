-- ===== src/Indexer/Serial/Stored.antt =====
-- The byte index on its whole way: built from the files, written, and read by tools/changes.cpp.
use phpatcher.Base.{
  ltb, ◌==◌, if◌then◌else◌, Bool-cases, Bytes, length, get_elem?, All, ok, ℕ, ◌^◌, ◌≤◌, ◌<◌, false,
  not, ◌&&◌, List, [], ◌∷◌, map, ◌⊎◌, inl, inr, Option, none, some, ◌≡◌, refl, sym, ap, ◌∙◌, arith,
}
use phpatcher.Dict.{lookup}
use phpatcher.IndexFile.{IndexOptions, is_capped, write_index, Posting, Loaded, load, find_postings}
use phpatcher.IndexFile.Layout.{unpack}
use phpatcher.IndexFile.RoundTrip.{FitsFile, indexed, find_postings-write_index}
use phpatcher.Indexer.{FileScan, NormFile}
use phpatcher.Indexer.Serial.{scan_files, no_scan}
use phpatcher.Indexer.Serial.Located.{locate, located, all_occurrences}
use phpatcher.Indexer.Serial.Occurrences.{IsCountable, located-scan_files}
use phpatcher.Indexer.Workers.{or_nothing}

-- What a look-up in a loaded index names.
abbrev pub names_of : List Bytes → Option (List Posting) → List (Option Bytes × ℕ)
names_of files none = []
names_of files (some ps) = map (λ p. (get_elem? files p.file_id, p.lineno)) ps

names-unpack :
    (files : List Bytes) (ps : List ℕ)
    → map (λ p. (get_elem? files p.file_id, p.lineno)) (map unpack ps) ≡ map (locate files) ps
names-unpack files [] = refl
names-unpack files (p ∷ ps) = ap (◌∷◌ (locate files p)) (names-unpack files ps)

length-locate : (files : List Bytes) (ps : List ℕ) → length (map (locate files) ps) ≡ length ps
length-locate files [] = refl
length-locate files (p ∷ ps) = omega (arith, length-locate files ps)

not_capped : (cap n : ℕ) → (cap ≡ 0) ⊎ (n ≤ cap) → (not (cap == 0) && ltb cap n) ≡ false
not_capped cap n (inl e) = rw e refl
not_capped cap n (inr le) =
    let test : ltb cap n ≡ false = ground arith in
    elim (Bool-cases (cap == 0)) [ inl e ↦ rw e refl | inr e ↦ rw (e, test) refl ]

looked_up :
    (cap : ℕ) (files : List Bytes) (found : Option (List ℕ))
    → (cap ≡ 0) ⊎ (length (map (locate files) (or_nothing found)) ≤ cap)
    → names_of files (elim found [
      | none ↦ none
      | some ps ↦ if is_capped cap ps then none else some (map unpack ps)
    ])
      ≡ map (locate files) (or_nothing found)
unfolding is_capped
looked_up cap files none few = refl
looked_up cap files (some ps) few =
    rw (not_capped cap (length ps) (rw (length-locate files ps) at few)) (names-unpack files ps)

indexed-names :
    (opt : IndexOptions) (st : FileScan) (key : Bytes)
    → (opt.max_postings ≡ 0) ⊎ (length (located key st) ≤ opt.max_postings)
    → names_of st.index.files (indexed opt st.index key) ≡ located key st
indexed-names opt st key few =
    looked_up opt.max_postings st.index.files (lookup key st.index.lines) few

-- In the file of the index, a look-up names the files and the numbers of all lines that are the key.
pub find_postings-scan_files :
    (opt : IndexOptions) (files : List NormFile) (key : Bytes)
    → length files < 2 ^ 32
    → All IsCountable files
    → FitsFile (scan_files opt.min_len files no_scan).index
    → (opt.max_postings ≡ 0) ⊎ (length (all_occurrences opt.min_len key files) ≤ opt.max_postings)
    → (loaded : Loaded) × (load (write_index opt (scan_files opt.min_len files no_scan).index).buf
        ≡ ok (loaded, []))
      × (names_of loaded.files (find_postings loaded key) ≡ all_occurrences opt.min_len key files)
find_postings-scan_files opt files key fits counts fits_file few =
    let st = scan_files opt.min_len files no_scan in
    let all = located-scan_files opt.min_len files key fits counts in
    let (loaded, read, same_files, _, finds) = find_postings-write_index opt st.index fits_file in
    (
      loaded,
      read,
      rw (same_files, finds key) (indexed-names opt st key (rw (sym all) at few)) ∙ all,
    )
