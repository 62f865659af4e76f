-- ===== src/Indexer/Serial/Located.antt =====
-- Which lines of which files the postings of a byte index name.
use phpatcher.Base.{
  leb, if◌then◌else◌, Bytes, equal, length, get_elem?, is_empty, All, ℕ, zero, suc, ◌+◌, ◌<◌, not,
  ◌&&◌, List, [], ◌∷◌, ◌++◌, map, Option, none, some, ◌≡◌, refl, ap, arith,
}
use phpatcher.Generator.{trim}
use phpatcher.IndexFile.{posting_file, posting_line}
use phpatcher.Indexer.{FileScan, NormFile}
use phpatcher.Indexer.Files.{file_lines}
use phpatcher.Indexer.Workers.{postings}

-- What a posting names: a file and a line of it.
abbrev pub locate : List Bytes → ℕ → Option Bytes × ℕ
locate files p = (get_elem? files (posting_file p), posting_line p)

abbrev pub located : Bytes → FileScan → List (Option Bytes × ℕ)
located j st = map (locate st.index.files) (postings j st.index.lines)

-- The lines behind line `n` that are the key, when they are trimmed, and are long enough to be indexed.
abbrev pub occurrences : ℕ → Bytes → Bytes → ℕ → List Bytes → List (Option Bytes × ℕ)
occurrences min_len rel j n [] = []
occurrences min_len rel j n (raw ∷ lines) =
    let rest = occurrences min_len rel j (n + 1) lines in
    if not (is_empty (trim raw)) && leb min_len (length (trim raw)) && equal (trim raw) j
    then (some rel, n + 1) ∷ rest
    else rest

-- And those of all files that can be read.
abbrev pub all_occurrences : ℕ → Bytes → List NormFile → List (Option Bytes × ℕ)
all_occurrences min_len j [] = []
all_occurrences min_len j (f ∷ files) =
    (elim f.content [ none ↦ [] | some s ↦ occurrences min_len f.rel j 0 (file_lines s) ])
    ++ all_occurrences min_len j files

-- Every posting names a file that is there.
abbrev pub InRange : FileScan → Type 0
InRange st =
    (j : Bytes) → All (λ p. posting_file p < length st.index.files) (postings j st.index.lines)

get_elem?-append :
    (xs ys : List Bytes) (i : ℕ) → i < length xs → get_elem? (xs ++ ys) i ≡ get_elem? xs i
get_elem?-append [] ys i h = absurd (omega arith)
get_elem?-append (x ∷ xs) ys zero h = refl
get_elem?-append (x ∷ xs) ys (suc i) h = get_elem?-append xs ys i (omega arith)

pub get_elem?-length : (xs : List Bytes) (x : Bytes) → get_elem? (xs ++ x ∷ []) (length xs) ≡ some x
get_elem?-length [] x = refl
get_elem?-length (y ∷ xs) x = get_elem?-length xs x

pub locate-append :
    (files more : List Bytes) (ps : List ℕ)
    → All (λ p. posting_file p < length files) ps
    → map (locate (files ++ more)) ps ≡ map (locate files) ps
locate-append files more [] _ = refl
locate-append files more (p ∷ ps) (h, hs) =
    rw (get_elem?-append files more (posting_file p) h, locate-append files more ps hs) refl

pub map-append :
    (f : ℕ → Option Bytes × ℕ) (ps qs : List ℕ) → map f (ps ++ qs) ≡ map f ps ++ map f qs
map-append f [] qs = refl
map-append f (p ∷ ps) qs = ap (◌∷◌ (f p)) (map-append f ps qs)
