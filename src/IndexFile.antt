-- ===== src/IndexFile.antt =====
-- The index file: `pack`, `write_index` of tools/indexer.cpp (lines 182 to 246) and `Index::load` and
-- `Index::find` of tools/changes.cpp (lines 238 to 304; tools/matcher.cpp, lines 143 to 216, has the
-- same code). The file is its bytes: that it cannot be opened, read or written is left out. An
-- unordered_map is the list of its pairs in the order in which the loop meets them.
pub mod Postings
pub mod Layout
pub mod Keys
pub mod RoundTrip
pub mod Cut
use phpatcher.Base.Results.{◌>>=◌}
use phpatcher.Base.{
  ltb, leb, ◌==◌, if◌then◌else◌, Bytes, codes, equal, length, take, drop, Result, ok, err, ℕ, zero,
  suc, ◌+◌, ◌*◌, ◌/◌, ◌%◌, ◌^◌, bit_and, bit_or, Bool, not, ◌&&◌, List, [], ◌∷◌, ◌++◌, Option, none,
  some,
}
use phpatcher.Dict.{lookup}
use phpatcher.Words.{put_u16, put_u32}

-- `(uint64(file_id) << 32) | lineno`.
unfoldable pub pack : ℕ → ℕ → ℕ
pack file_id lineno = bit_or (file_id * 2 ^ 32) lineno

unfoldable pub posting_file : ℕ → ℕ
posting_file p = p / 2 ^ 32 % 2 ^ 32

unfoldable pub posting_line : ℕ → ℕ
posting_line p = bit_and p 0xffffffff % 2 ^ 32

-- `Index` of the indexer: the files by their id, and the postings of each key.
pub record Index : Type 0 where
  pub files : List Bytes
  pub lines : List (Bytes × List ℕ)

-- The options that the file depends on; `max_postings` 0 is no cap.
pub record IndexOptions : Type 0 where
  pub normalize : Bool
  pub min_len : ℕ
  pub max_postings : ℕ

abbrev pub index_magic : Bytes
index_magic = codes "PHIX"

abbrev pub index_version : ℕ
index_version = 2

unfoldable pub put_files : List Bytes → Bytes
put_files [] = []
put_files (p ∷ files) = put_u16 (length p % 2 ^ 16) ++ (p ++ put_files files)

unfoldable pub put_postings : List ℕ → Bytes
put_postings [] = []
put_postings (p ∷ ps) = put_u32 (posting_file p) ++ (put_u32 (posting_line p) ++ put_postings ps)

-- `opt.max_postings != 0 && kv.second.size() > opt.max_postings`
unfoldable pub is_capped : ℕ → List ℕ → Bool
is_capped cap postings = not (cap == 0) && ltb cap (length postings)

-- The buffer, `keys_written` and `postings_written`.
pub record Written : Type 0 where
  pub buf : Bytes
  pub keys_written : ℕ
  pub postings_written : ℕ

unfoldable pub put_key : Bytes → List ℕ → Bytes
put_key key postings =
    put_u32 (length key % 2 ^ 32)
    ++ (key ++ (put_u32 (length postings % 2 ^ 32) ++ put_postings postings))

-- The loop over `idx.lines`.
unfoldable pub put_keys : ℕ → List (Bytes × List ℕ) → Written → Written
put_keys cap [] w = w
put_keys cap ((key, postings) ∷ lines) w = put_keys cap lines (
    if is_capped cap postings then w else record {
      buf = w.buf ++ put_key key postings;
      keys_written = w.keys_written + 1;
      postings_written = w.postings_written + length postings;
    })

-- `memcpy(&buf[pos], bytes)`
unfoldable pub overwrite : ℕ → Bytes → Bytes → Bytes
overwrite pos bytes buf = take pos buf ++ (bytes ++ drop (pos + length bytes) buf)

-- The buffer up to the key count.
unfoldable pub put_head : IndexOptions → List Bytes → Bytes
put_head opt files =
    index_magic
    ++ (put_u32 index_version
        ++ (put_u32 (if opt.normalize then 1 else 0)
            ++ (put_u32 (opt.min_len % 2 ^ 32)
                ++ (put_u32 (opt.max_postings % 2 ^ 32)
                    ++ (put_u32 (length files % 2 ^ 32) ++ put_files files)))))

-- A slot for the key count is filled in when the count is known.
unfoldable pub write_index : IndexOptions → Index → Written
write_index opt idx =
    let head = put_head opt idx.files in
    let w =
      put_keys opt.max_postings idx.lines
        (record { buf = head ++ put_u32 0; keys_written = 0; postings_written = 0 }) in
    record w { buf = overwrite (length head) (put_u32 (w.keys_written % 2 ^ 32)) w.buf }

pub record Posting : Type 0 where
  pub file_id : ℕ
  pub lineno : ℕ

-- `Index` of the readers.
pub record Loaded : Type 0 where
  pub files : List Bytes
  pub lines : List (Bytes × List Posting)
  pub normalized : Bool

-- The messages of `die`.
pub data LoadError : Type 0 where
  truncated : LoadError
  bad_magic : LoadError
  bad_version : ℕ → LoadError

abbrev pub Reader : Type 0 → Type 0
Reader A = Bytes → Result LoadError (A × Bytes)

-- `need(n)`, and the pointer moves over `n` bytes.
unfoldable pub need : ℕ → Reader Bytes
need n p = if ltb (length p) n then err truncated else ok (take n p, drop n p)

-- memcpy into a word.
unfoldable pub word : Bytes → ℕ
word [] = 0
word (b ∷ bytes) = b + 256 * word bytes

unfoldable pub u16 : Reader ℕ
u16 p = do (bytes, p') ← need 2 p; ok (word bytes, p')

unfoldable pub u32 : Reader ℕ
u32 p = do (bytes, p') ← need 4 p; ok (word bytes, p')

unfoldable pub load_files : ℕ → Reader (List Bytes)
load_files zero p = ok ([], p)
load_files (suc n) p = do
  (len, p1) ← u16 p
  (path, p2) ← need len p1
  (files, p3) ← load_files n p2
  ok (path ∷ files, p3)

unfoldable pub load_postings : ℕ → Reader (List Posting)
load_postings zero p = ok ([], p)
load_postings (suc n) p = do
  (file_id, p1) ← u32 p
  (lineno, p2) ← u32 p1
  (postings, p3) ← load_postings n p2
  ok (record { file_id = file_id; lineno = lineno } ∷ postings, p3)

-- `lines_.emplace(key, ...)`: a key that is there stays as it is.
unfoldable pub emplace :
    Bytes → List Posting → List (Bytes × List Posting) → List (Bytes × List Posting)
emplace key postings lines = elim (lookup key lines) [
  | none ↦ lines ++ (key, postings) ∷ []
  | some _ ↦ lines
]

unfoldable pub load_keys : ℕ → List (Bytes × List Posting) → Reader (List (Bytes × List Posting))
load_keys zero lines p = ok (lines, p)
load_keys (suc n) lines p = do
  (klen, p1) ← u32 p
  (key, p2) ← need klen p1
  (count, p3) ← u32 p2
  (postings, p4) ← load_postings count p3
  load_keys n (emplace key postings lines) p4

unfoldable pub load_magic : Reader Unit
load_magic p = do
  (bytes, p') ← need 4 p
  if equal bytes index_magic then ok (tt, p') else err bad_magic

-- The test on the version, and the flags, which follow from version 2 on.
unfoldable pub load_flags : ℕ → Reader ℕ
load_flags version p =
    if not (version == 1) && not (version == 2)
    then err (bad_version version)
    else if leb 2 version
    then u32 p
    else ok (0, p)

-- Behind the flags.
unfoldable pub load_tables : ℕ → Reader Loaded
load_tables flags p = do
  (min_len, p1) ← u32 p
  (max_postings, p2) ← u32 p1
  (file_count, p3) ← u32 p2
  (files, p4) ← load_files file_count p3
  (key_count, p5) ← u32 p4
  (lines, p6) ← load_keys key_count [] p5
  ok (record { files = files; lines = lines; normalized = not (bit_and flags 1 == 0) }, p6)

-- With the bytes behind the last key, which are not looked at.
unfoldable pub load : Reader Loaded
load p = do
  (_, p1) ← load_magic p
  (version, p2) ← u32 p1
  (flags, p3) ← load_flags version p2
  load_tables flags p3

-- `find`.
unfoldable pub find_postings : Loaded → Bytes → Option (List Posting)
find_postings idx key = lookup key idx.lines
