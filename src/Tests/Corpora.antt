-- ===== src/Tests/Corpora.antt =====
-- The theorems on the normalizer's client, the index file, the factorization and the indexer.
use phpatcher.Base.{
  ◌==◌, Bytes, codes, All, ok, err, ℕ, ◌+◌, ◌≤◌, Bool, false, List, [], ◌∷◌, ◌++◌, Option, some,
  ◌≡◌, refl, subst, arith,
}
use phpatcher.Dict.{lookup}
use phpatcher.Factorize.{run_size, factorize}
use phpatcher.Factorize.Rounds.{IsRun}
use phpatcher.Factorize.Sorted.{IsChain, factorize_lem}
use phpatcher.IndexFile.{
  posting_file, posting_line, Index, IndexOptions, put_files, put_postings, is_capped, put_key,
  put_keys, overwrite, put_head, write_index, Posting, Loaded, truncated, load, find_postings,
}
use phpatcher.IndexFile.Cut.{load_cut}
use phpatcher.IndexFile.RoundTrip.{FitsFile, indexed, find_postings-write_index}
use phpatcher.Indexer.{NormFile, process_parallel}
use phpatcher.Indexer.Merging.{process_parallel-schedule}
use phpatcher.Indexer.Workers.{postings}
use phpatcher.Normalizer.{
  received, read_interrupted, wrote, Client, write_loop, write_all, Fatal, NormLine, request,
  run_each, run_normalizer,
}
use phpatcher.Normalizer.Responses.{run_normalizer-encode_response, run_each_cut}
use phpatcher.Normalizer.Streams.{stream, IsReady}
use phpatcher.Words.{IsU32, put_u32le, put_u16, put_u32}

abbrev small_options : IndexOptions
small_options = record { normalize = false; min_len = 6; max_postings = 1 }

abbrev small_index : Index
small_index = record { files = codes "a" ∷ []; lines = (codes "k", 3 ∷ []) ∷ [] }

small_index-FitsFile : FitsFile small_index
unfolding lookup
small_index-FitsFile = record {
  file_count = omega arith;
  paths = (omega arith, tt);
  key_count = omega arith;
  keys = ((omega arith, omega arith), tt);
  unique = (refl, tt);
}

find_postings-write_index_example :
    (loaded : Loaded) × (load (write_index small_options small_index).buf ≡ ok (loaded, []))
    × (loaded.files ≡ small_index.files)
    × (loaded.normalized ≡ false)
    × ((key : Bytes) → find_postings loaded key ≡ indexed small_options small_index key)
find_postings-write_index_example =
    find_postings-write_index small_options small_index small_index-FitsFile

-- The file up to the count of the keys.
abbrev half_file : Bytes
half_file =
    codes "PHIX"
    ++ 2 ∷ 0 ∷ 0 ∷ 0 ∷ 0 ∷ 0 ∷ 0 ∷ 0 ∷ 6 ∷ 0 ∷ 0 ∷ 0 ∷ 1 ∷ 0 ∷ 0 ∷ 0 ∷ 1 ∷ 0 ∷ 0 ∷ 0 ∷ 1 ∷ 0 ∷ 97
      ∷ []

half_written :
    (write_index small_options small_index).buf
    ≡ half_file
      ++ 1 ∷ 0 ∷ 0 ∷ 0 ∷ 1 ∷ 0 ∷ 0 ∷ 0 ∷ 107 ∷ 1 ∷ 0 ∷ 0 ∷ 0 ∷ 0 ∷ 0 ∷ 0 ∷ 0 ∷ 3 ∷ 0 ∷ 0 ∷ 0 ∷ []
unfolding write_index put_head put_u32 put_u16 put_files put_keys put_key put_postings overwrite
    is_capped posting_file posting_line
half_written = refl

load_cut_example : load half_file ≡ err truncated
load_cut_example =
    load_cut small_options small_index half_file 1 _ small_index-FitsFile half_written

abbrev two_keys : List Bytes
two_keys = codes "one" ∷ codes "two" ∷ []

-- The key stands in line 1 of file 0.
abbrev first_line : Bytes → Option (List Posting)
first_line key = some (record { file_id = 0; lineno = 1 } ∷ [])

abbrev next_line_equal : ℕ → ℕ → ℕ → Bool
next_line_equal b file c = c == b + 1

first_line-IsU32 :
    (key : Bytes) (post : List Posting)
    → first_line key ≡ some post
    → All (λ pp. IsU32 pp.lineno) post
first_line-IsU32 key post e =
    let same : record { file_id = 0; lineno = 1 } ∷ [] ≡ post = cc in
    subst (All (λ pp. IsU32 pp.lineno)) same (omega arith, tt)

factorize_lem_example :
    let runs = factorize two_keys 2 first_line next_line_equal in
    All (λ r. IsRun next_line_equal 2 r × (2 ≤ run_size r)) runs × IsChain runs
factorize_lem_example =
    factorize_lem two_keys 2 first_line next_line_equal (λ b file. ground arith) first_line-IsU32

-- A response in pieces.
abbrev piecewise : Client
piecewise = record {
  rbuf = [];
  rpos = 0;
  reads =
      received 1 (0 ∷ 0 ∷ [])
      ∷ read_interrupted
      ∷ received 0 (0 ∷ 1 ∷ 0 ∷ 0 ∷ [])
      ∷ received 0 (120 ∷ [])
      ∷ [];
  writes = wrote 2 ∷ wrote 9 ∷ [];
  sent = [];
}

abbrev cut_short : Client
cut_short = record piecewise { reads = received 1 (0 ∷ 0 ∷ []) ∷ [] }

abbrev one_line : List NormLine
one_line = record { flag = 0; key = codes "x" } ∷ []

run_normalizer-encode_response_example :
    (c : Client) × (run_normalizer piecewise (codes "x") ≡ ok (one_line, c))
    × IsReady c
    × (stream c ≡ [])
unfolding write_all write_loop request put_u32le
run_normalizer-encode_response_example =
    run_normalizer-encode_response piecewise _ (codes "x") [] one_line refl (omega arith)
      (omega arith, (omega arith, tt)) refl

run_each_cut_example :
    (e : Fatal) × (run_each (λ i flag key s. s + 1) cut_short (codes "x") 0 ≡ err e)
unfolding write_all write_loop request put_u32le
run_each_cut_example =
    run_each_cut (λ i flag key s. s + 1) cut_short _ (codes "x") 0 one_line 0 _ refl (omega arith)
      (omega arith, (omega arith, tt)) refl

-- Two files of one line each, by one worker and by two.
abbrev whole_line : Bytes → List NormLine
whole_line content = record { flag = 0; key = content } ∷ []

abbrev two_files : List NormFile
two_files =
    record { content = some (codes "echo 1;"); rel = codes "a.php" }
    ∷ record { content = some (codes "echo 1;"); rel = codes "b.php" }
    ∷ []

process_parallel-schedule_example :
    let idx = process_parallel whole_line 6 two_files 1 (0 ∷ 0 ∷ []) in
    let idx' = process_parallel whole_line 6 two_files 2 (1 ∷ 0 ∷ []) in
    (idx.files ≡ idx'.files)
    × (postings (codes "echo 1;") idx.lines ≡ postings (codes "echo 1;") idx'.lines)
process_parallel-schedule_example =
    process_parallel-schedule whole_line 6 two_files 1 2 (0 ∷ 0 ∷ []) (1 ∷ 0 ∷ []) (codes "echo 1;")
      ((omega arith, (omega arith, tt)), omega arith)
      ((omega arith, (omega arith, tt)), omega arith)
