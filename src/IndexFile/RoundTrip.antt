-- ===== src/IndexFile/RoundTrip.antt =====
-- An index file is read back.
use phpatcher.Base.{
  ◌==◌, if◌then◌else◌, Bool-cases, Bytes, equal, equal_iff, length, drop, take-length, drop-length,
  drop-drop, All, ok, ℕ, ◌+◌, ◌%◌, ◌^◌, ◌≤◌, bit_and, Bool, true, false, not, List, [], ◌∷◌, ◌++◌,
  map, append-nil, append_assoc, inl, inr, Option, none, some, ◌≡◌, refl, sym, ◌∙◌, arith,
}
use phpatcher.Dict.{lookup, IsMap}
use phpatcher.IndexFile.{
  Index, IndexOptions, index_magic, index_version, put_files, is_capped, overwrite, put_head,
  write_index, Posting, Loaded, load_keys, load_magic, load_flags, load_tables, load, find_postings,
}
use phpatcher.IndexFile.Keys.{
  kept, keys_text, count_postings, Written-eq, put_keys-kept, loaded_lines, FitsKeys,
  load_keys-keys_text, kept-IsMap, kept-FitsKeys, NewTo-nil,
}
use phpatcher.IndexFile.Layout.{need-append, u32-put_u32, load_files-put_files, unpack}
use phpatcher.Words.{IsU16, IsU32, put_u32}

-- The index that the file stands for.
abbrev pub loaded_index : IndexOptions → Index → Loaded
loaded_index opt idx = record {
  files = idx.files;
  lines = loaded_lines (kept opt.max_postings idx.lines);
  normalized = opt.normalize;
}

-- The tables of an index fit the words of the file.
pub record FitsFile (idx : Index) : Type 0 where
  pub file_count : IsU32 (length idx.files)
  pub paths : All (λ p. IsU16 (length p)) idx.files
  pub key_count : IsU32 (length idx.lines)
  pub keys : FitsKeys idx.lines
  pub unique : IsMap idx.lines

length-kept : (cap : ℕ) (lines : List (Bytes × List ℕ)) → length (kept cap lines) ≤ length lines
length-kept cap [] = omega arith
length-kept cap ((key, ps) ∷ lines) = ground (arith, length-kept cap lines)

overwrite-slot :
    (head slot new rest : Bytes)
    → length new ≡ length slot
    → overwrite (length head) new ((head ++ slot) ++ rest) ≡ head ++ (new ++ rest)
unfolding overwrite
overwrite-slot head slot new rest e =
    let behind : drop (length head + length new) (head ++ (slot ++ rest)) ≡ rest =
      rw
        (
          sym (drop-drop (length head) (length new) (head ++ (slot ++ rest))),
          drop-length head (slot ++ rest),
          e,
        )
        (drop-length slot rest) in
    rw (append_assoc head slot rest, take-length head (slot ++ rest), behind) refl

-- The buffer with the count in its slot.
write_index_lem :
    (opt : IndexOptions) (idx : Index)
    → FitsFile idx
    → let lines = kept opt.max_postings idx.lines in
      write_index opt idx ≡ record {
        buf = put_head opt idx.files ++ (put_u32 (length lines) ++ keys_text lines);
        keys_written = length lines;
        postings_written = count_postings lines;
      }
unfolding write_index
write_index_lem opt idx fits =
    let lines = kept opt.max_postings idx.lines in
    let small : length lines % 2 ^ 32 ≡ length lines =
      omega (arith, length-kept opt.max_postings idx.lines, fits.key_count) in
    let same : length (put_u32 (length lines)) ≡ length (put_u32 0) = unfold put_u32 in refl in
    let counted : 0 + length lines ≡ length lines = omega arith in
    rw (put_keys-kept opt.max_postings idx.lines, counted)
      (Written-eq _ _
        (rw small (
          overwrite-slot (put_head opt idx.files) (put_u32 0) (put_u32 (length lines))
            (keys_text lines) same))
        (omega arith) (omega arith))

load_magic_lem : (rest : Bytes) → load_magic (index_magic ++ rest) ≡ ok (tt, rest)
unfolding load_magic equal
load_magic_lem rest = rw (need-append 4 index_magic rest refl) refl

-- What stands behind the flags.
abbrev table_text : IndexOptions → Index → Bytes → Bytes
table_text opt idx keys =
    put_u32 (opt.min_len % 2 ^ 32)
    ++ (put_u32 (opt.max_postings % 2 ^ 32)
        ++ (put_u32 (length idx.files) ++ (put_files idx.files ++ keys)))

put_head_lem :
    (opt : IndexOptions) (idx : Index) (keys : Bytes)
    → FitsFile idx
    → put_head opt idx.files ++ keys
      ≡ index_magic
        ++ (put_u32 index_version
            ++ (put_u32 (if opt.normalize then 1 else 0) ++ table_text opt idx keys))
unfolding put_head
put_head_lem opt idx keys fits =
    let small : length idx.files % 2 ^ 32 ≡ length idx.files = omega (arith, fits.file_count) in
    let f = put_u32 (length idx.files) ++ put_files idx.files in
    let e = put_u32 (opt.max_postings % 2 ^ 32) ++ f in
    let d = put_u32 (opt.min_len % 2 ^ 32) ++ e in
    let c = put_u32 (if opt.normalize then 1 else 0) ++ d in
    rw
      (
        small,
        append_assoc (put_u32 index_version) c keys,
        append_assoc (put_u32 (if opt.normalize then 1 else 0)) d keys,
        append_assoc (put_u32 (opt.min_len % 2 ^ 32)) e keys,
        append_assoc (put_u32 (opt.max_postings % 2 ^ 32)) f keys,
        append_assoc (put_u32 (length idx.files)) (put_files idx.files) keys,
      )
      refl

flag_lem : (b : Bool) → not (bit_and (if b then 1 else 0) 1 == 0) ≡ b
flag_lem true = refl
flag_lem false = refl

load_tables_lem :
    (opt : IndexOptions) (idx : Index)
    → FitsFile idx
    → let lines = kept opt.max_postings idx.lines in
      load_tables
        (if opt.normalize then 1 else 0)
        (table_text opt idx (put_u32 (length lines) ++ keys_text lines))
      ≡ ok (loaded_index opt idx, [])
unfolding load_tables
load_tables_lem opt idx fits =
    let lines = kept opt.max_postings idx.lines in
    let min_len = opt.min_len % 2 ^ 32 in
    let max_postings = opt.max_postings % 2 ^ 32 in
    let count : IsU32 (length lines) =
      omega (arith, length-kept opt.max_postings idx.lines, fits.key_count) in
    let keys = put_u32 (length lines) ++ keys_text lines in
    let files = put_u32 (length idx.files) ++ (put_files idx.files ++ keys) in
    let whole : load_keys (length lines) [] (keys_text lines) ≡ ok (loaded_lines lines, []) =
      rw (append-nil (keys_text lines)) at (
        load_keys-keys_text lines [] [] (kept-FitsKeys opt.max_postings idx.lines fits.keys)
          (kept-IsMap opt.max_postings idx.lines fits.unique) (NewTo-nil lines)) in
    rw
      (
        u32-put_u32 min_len (put_u32 max_postings ++ files) (omega arith),
        u32-put_u32 max_postings files (omega arith),
        u32-put_u32 (length idx.files) (put_files idx.files ++ keys) fits.file_count,
        load_files-put_files idx.files keys fits.paths,
        u32-put_u32 (length lines) (keys_text lines) count,
        whole,
        flag_lem opt.normalize,
      )
      refl

-- The reader finds in the file that the writer makes the files, the keys that the cap lets through
-- with their postings, and the flag; and no byte is left.
pub load-write_index :
    (opt : IndexOptions) (idx : Index)
    → FitsFile idx
    → load (write_index opt idx).buf ≡ ok (loaded_index opt idx, [])
unfolding load load_flags
load-write_index opt idx fits =
    let keys =
      put_u32 (length (kept opt.max_postings idx.lines))
      ++ keys_text (kept opt.max_postings idx.lines) in
    let tables = table_text opt idx keys in
    let flags = if opt.normalize then 1 else 0 in
    let flags_fit : IsU32 flags = ground arith in
    rw
      (
        write_index_lem opt idx fits,
        put_head_lem opt idx keys fits,
        load_magic_lem (put_u32 index_version ++ (put_u32 flags ++ tables)),
        u32-put_u32 index_version (put_u32 flags ++ tables) (omega arith),
        u32-put_u32 flags tables flags_fit,
      )
      (load_tables_lem opt idx fits)

-- The postings that the index should give for a key.
abbrev pub indexed : IndexOptions → Index → Bytes → Option (List Posting)
indexed opt idx key = elim (lookup key idx.lines) [
  | none ↦ none
  | some postings ↦ if is_capped opt.max_postings postings then none else some (map unpack postings)
]

lookup-loaded_lines :
    (cap : ℕ) (lines : List (Bytes × List ℕ)) (key : Bytes)
    → IsMap lines
    → lookup key (loaded_lines (kept cap lines)) ≡ (elim (lookup key lines) [
      | none ↦ none
      | some postings ↦ if is_capped cap postings then none else some (map unpack postings)
    ])
unfolding lookup
lookup-loaded_lines cap [] key _ = refl
lookup-loaded_lines cap ((j, ps) ∷ lines) key (once, unique) =
    let rest = lookup-loaded_lines cap lines key unique in
    elim (Bool-cases (equal j key)) [
      | inl same ↦
          let absent : lookup key lines ≡ none = rw ((equal_iff j key).0 same) at once in
          elim (Bool-cases (is_capped cap ps)) [
            | inl e ↦ rw (same, e) (rest ∙ rw absent refl)
            | inr e ↦ rw (same, e) (rw same refl)
          ]
      | inr other ↦ elim (Bool-cases (is_capped cap ps)) [
        | inl e ↦ rw (other, e) rest
        | inr e ↦ rw (other, e) (rw other rest)
      ]
    ]

-- In the file that the writer makes a look-up finds the postings of each key, unless the cap drops it.
pub find_postings-write_index :
    (opt : IndexOptions) (idx : Index)
    → FitsFile idx
    → (loaded : Loaded) × (load (write_index opt idx).buf ≡ ok (loaded, []))
      × (loaded.files ≡ idx.files)
      × (loaded.normalized ≡ opt.normalize)
      × ((key : Bytes) → find_postings loaded key ≡ indexed opt idx key)
unfolding find_postings
find_postings-write_index opt idx fits = (
  loaded_index opt idx,
  load-write_index opt idx fits,
  refl,
  refl,
  λ key. lookup-loaded_lines opt.max_postings idx.lines key fits.unique,
)
