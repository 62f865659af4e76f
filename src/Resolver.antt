-- ===== src/Resolver.antt =====
-- phpatcher.cpp, lines 284 to 364: the corpus-reference resolver. `disk` stands for `read_file`: the
-- content of a file, or `none` where it cannot be read. The C++ `to_string` of an address is that of
-- a natural number.
pub mod Guards
use phpatcher.Base.{
  ltb, ◌==◌, if◌then◌else◌, Bytes, codes, length, take, drop, is_empty, Result, ok, err, ℕ, ◌+◌,
  ◌-◌, Bool, true, false, not, ◌&&◌, ◌||◌, List, [], ◌∷◌, ◌++◌, map, Option, none, some, ◌≡◌, refl,
}
use phpatcher.Bundle.{run}
use phpatcher.Dict.{lookup, assign}
use phpatcher.Ed.{EdRef}
use phpatcher.Number.Print.{to_string}
use phpatcher.RefHash.{ref_hash, same_hash}
use phpatcher.Text.{scan_lines}
use phpatcher.Text.Lines.{terminated}

abbrev pub Disk : Type 0
Disk = Bytes → Option Bytes

-- A line without its `\r`, if it ends in one.
unfoldable pub strip_cr : Bytes → Bytes
strip_cr [] = []
strip_cr (c ∷ []) = if c == b'\r' then [] else c ∷ []
strip_cr (c ∷ d ∷ s) = c ∷ strip_cr (d ∷ s)

-- `phpatcher_split_lines`: unlike that of patch.cpp it drops the `\r` before a newline.
unfoldable pub split_corpus_lines : Bytes → List Bytes
unfolding scan_lines strip_cr
split_corpus_lines content =
    let (lines, last) = scan_lines [] content in
    map strip_cr lines ++ (if is_empty last then [] else last ∷ [])

-- What the cache holds of a file: `none` where it could not be read.
abbrev pub RefCache : Type 0
RefCache = List (Bytes × Option (List Bytes))

starts_with_slash : Bytes → Bool
starts_with_slash [] = false
starts_with_slash (c ∷ s) = c == b'/'

unfoldable pub full_path : Bytes → Bytes → Bytes
unfolding starts_with_slash
full_path base_dir path = if starts_with_slash path then path else base_dir ++ (b'/' ∷ path)

unfoldable pub load_file : Disk → Bytes → Option (List Bytes)
load_file disk full = elim (disk full) [
  | none ↦ none
  | some content ↦ some (split_corpus_lines content)
]

-- The entry of the cache, read from disk if it is not there.
unfoldable pub cached_lines : Disk → RefCache → Bytes → RefCache × Option (List Bytes)
unfolding load_file
cached_lines disk cache full = elim (lookup full cache) [
  | some entry ↦ (cache, entry)
  | none ↦ (assign full (load_file disk full) cache, load_file disk full)
]

-- The loop from `begin` to `end`: the lines, their length and their bytes, each with a newline.
abbrev pub run_of : ℕ → ℕ → List Bytes → List Bytes
run_of first last lines = take (last - (first - 1)) (drop (first - 1) lines)

abbrev pub run_length : List Bytes → ℕ
run_length [] = 0
run_length (l ∷ ls) = length l + 1 + run_length ls

unfoldable pub length_matches : Option ℕ → ℕ → Bool
length_matches none total = true
length_matches (some n) total = total == n

range_error : EdRef → Bytes
range_error ref =
    codes "referenced range "
    ++ (to_string ref.begin
        ++ (b',' ∷ (to_string ref.end ++ (codes " out of range in '" ++ (ref.path ++ codes "'")))))

drift_error : Bytes → EdRef → Bytes
drift_error why ref =
    codes "referenced content in '" ++ (ref.path ++ (codes "' has changed (" ++ (why ++ codes ")")))

-- The checks on the lines of a file that could be read.
check_run : EdRef → List Bytes → Result Bytes (List Bytes)
unfolding length_matches range_error drift_error
check_run ref lines =
    let run = run_of ref.begin ref.end lines in
    if ltb ref.begin 1 || ltb ref.end ref.begin || ltb (length lines) ref.end
    then err (range_error ref)
    else if not (length_matches ref.bytes (run_length run))
    then err (drift_error (codes "length mismatch") ref)
    else if ref.has_hash && not (same_hash (ref_hash (terminated run)) ref.hash)
    then err (drift_error (codes "hash mismatch") ref)
    else ok run

unfoldable pub resolve_lines : Bytes → EdRef → Option (List Bytes) → Result Bytes (List Bytes)
unfolding check_run
resolve_lines full ref none = err (codes "cannot read referenced file '" ++ (full ++ codes "'"))
resolve_lines full ref (some lines) = check_run ref lines

-- One call of the resolver: the cache after it, and its result.
unfoldable pub resolve_cached :
    Disk → Bytes → RefCache → EdRef → RefCache × Result Bytes (List Bytes)
unfolding resolve_lines full_path
resolve_cached disk base_dir cache ref =
    let full = full_path base_dir ref.path in
    let (cache', entry) = cached_lines disk cache full in (cache', resolve_lines full ref entry)

-- The same with a cache that is always empty.
unfoldable pub resolve_ref : Disk → Bytes → EdRef → Result Bytes (List Bytes)
unfolding resolve_cached
resolve_ref disk base_dir ref = (resolve_cached disk base_dir [] ref).1

split_corpus_lines_crlf :
    split_corpus_lines (codes "a\r\n\r\nb\r") ≡ codes "a" ∷ [] ∷ codes "b\r" ∷ []
unfolding split_corpus_lines
split_corpus_lines_crlf = refl
