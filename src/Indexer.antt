-- ===== src/Indexer.antt =====
-- tools/indexer.cpp, lines 125 to 180, 248 to 384 and 478 to 507: what the indexer makes of the files
-- that it scans. Reading a file and `nz.run_each` are given by their results: the content of a file,
-- none where it cannot be read, and the lines that Normalizer makes of a response. `trim` is the one
-- of tools/matcher_core.hpp, the same code.
pub mod Files
pub mod Serial
pub mod Walk
pub mod Counts
pub mod Workers
pub mod Merging
use phpatcher.Base.{
  ltb, leb, ◌==◌, if◌then◌else◌, Bytes, length, get_elem?, is_empty, ℕ, zero, suc, ◌+◌, ◌%◌, ◌^◌,
  Bool, true, false, ◌&&◌, ◌||◌, List, [], ◌∷◌, ◌++◌, map, Option, none, some,
}
use phpatcher.Dict.{lookup, assign}
use phpatcher.Factorize.{sort_num}
use phpatcher.Generator.{trim}
use phpatcher.IndexFile.{pack, posting_file, posting_line, Index}
use phpatcher.Normalizer.{NormLine}
use phpatcher.Text.{newline}

unfoldable pub lower : ℕ → ℕ
lower c = if leb b'A' c && leb c b'Z' then c + 32 else c

unfoldable pub to_lower : Bytes → Bytes
unfolding lower
to_lower s = map lower s

-- `item.erase(item.begin())` where a dot leads.
unfoldable pub strip_dot : Bytes → Bytes
strip_dot [] = []
strip_dot (c ∷ s) = if c == b'.' then s else c ∷ s

-- The end of an item of a list: an empty one is left out.
unfoldable pub csv_item : Bytes → List Bytes
unfolding strip_dot to_lower
csv_item item = if is_empty (strip_dot item) then [] else to_lower (strip_dot item) ∷ []

-- The loop of `split_csv`; `item` is what stands between `start` and `i`.
unfoldable pub csv_loop : Bytes → Bytes → List Bytes
unfolding csv_item
csv_loop item [] = csv_item item
csv_loop item (c ∷ s) =
    let rest = csv_loop [] s in
    let longer = csv_loop (item ++ c ∷ []) s in if c == b',' then csv_item item ++ rest else longer

unfoldable pub split_csv : Bytes → List Bytes
unfolding csv_loop
split_csv s = csv_loop [] s

-- `lines[key].push_back(p)`, and appending a list of postings to that of a key.
unfoldable pub push_postings : Bytes → List ℕ → List (Bytes × List ℕ) → List (Bytes × List ℕ)
push_postings key ps lines = elim (lookup key lines) [
  | none ↦ assign key ps lines
  | some old ↦ assign key (old ++ ps) lines
]

-- A file of a byte index while its lines are read.
pub record FileScan : Type 0 where
  pub index : Index
  pub file_id : ℕ
  pub have_id : Bool
  pub lineno : ℕ
  pub total : ℕ
  pub nonempty : ℕ
  pub indexed : ℕ

-- `ensure_id`, for the path of the file.
unfoldable pub ensure_id : Bytes → FileScan → FileScan
ensure_id rel st = if st.have_id then st else record st {
  index = record { files = st.index.files ++ rel ∷ []; lines = st.index.lines };
  file_id = length st.index.files % 2 ^ 32;
  have_id = true;
}

unfoldable pub add_posting : Bytes → FileScan → FileScan
add_posting key st = record st {
  index = record {
    files = st.index.files;
    lines = push_postings key (pack st.file_id st.lineno ∷ []) st.index.lines;
  };
  indexed = st.indexed + 1;
}

-- The body of the loop behind a newline.
unfoldable pub scan_line : ℕ → Bytes → Bytes → FileScan → FileScan
scan_line min_len rel raw st =
    let key = trim raw in
    let counted = record st { lineno = (st.lineno + 1) % 2 ^ 32; total = st.total + 1 } in
    let filled = record counted { nonempty = st.nonempty + 1 } in
    if is_empty key
    then counted
    else if ltb (length key) min_len
    then filled
    else add_posting key (ensure_id rel filled)

-- The loop over the bytes; `cur` is what stands between `start` and `i`.
unfoldable pub scan_bytes : ℕ → Bytes → Bytes → Bytes → FileScan → FileScan
scan_bytes min_len rel cur [] st = if is_empty cur then st else scan_line min_len rel cur st
scan_bytes min_len rel cur (c ∷ s) st =
    let next = scan_bytes min_len rel [] s (scan_line min_len rel cur st) in
    let longer = scan_bytes min_len rel (cur ++ c ∷ []) s st in
    if c == newline then next else longer

-- A file of a normalized index: what reading it gives, and its path.
pub record NormFile : Type 0 where
  pub content : Option Bytes
  pub rel : Bytes

pub record WorkerResult : Type 0 where
  pub lines : List (Bytes × List ℕ)
  pub total : ℕ
  pub nonempty : ℕ
  pub indexed : ℕ

-- The callback of `normalize_worker`.
unfoldable pub on_line : ℕ → ℕ → ℕ → Bytes → WorkerResult → WorkerResult
on_line min_len fid li key out =
    let counted = record out { total = out.total + 1 } in
    let filled = record counted { nonempty = out.nonempty + 1 } in
    if is_empty key
    then counted
    else if ltb (length (trim key)) min_len
    then filled
    else record filled {
      lines = push_postings key (pack fid ((li + 1) % 2 ^ 32) ∷ []) out.lines;
      indexed = out.indexed + 1;
    }

unfoldable pub on_lines : ℕ → ℕ → ℕ → List NormLine → WorkerResult → WorkerResult
on_lines min_len fid li [] out = out
on_lines min_len fid li (l ∷ lines) out =
    on_lines min_len fid (li + 1) lines (on_line min_len fid li l.key out)

module _ (normalize : Bytes → List NormLine) (min_len : ℕ) where
  -- A round of the worker's loop, for file `i`.
  unfoldable pub process_file : ℕ → NormFile → WorkerResult → WorkerResult
  process_file i f out = elim f.content [
    | none ↦ out
    | some content ↦ on_lines min_len (i % 2 ^ 32) 0 (normalize content) out
  ]

  -- Worker `w` of all of them has file `i`.
  unfoldable pub at_worker : ℕ → ℕ → NormFile → List WorkerResult → List WorkerResult
  at_worker w i f [] = []
  at_worker zero i f (r ∷ results) = process_file i f r ∷ results
  at_worker (suc w) i f (r ∷ results) = r ∷ at_worker w i f results

  -- The workers take the files off the shared cursor: the schedule says who does the next
  -- `fetch_add`. Processing a file only changes what its worker owns, so that it makes no difference
  -- when it goes on. Behind the last file a worker stops.
  unfoldable pub run_workers : List ℕ → ℕ → List NormFile → List WorkerResult → List WorkerResult
  run_workers [] i files results = results
  run_workers (w ∷ schedule) i [] results = results
  run_workers (w ∷ schedule) i (f ∷ files) results =
      run_workers schedule (i + 1) files (at_worker w i f results)

abbrev pub no_result : WorkerResult
no_result = record { lines = []; total = 0; nonempty = 0; indexed = 0 }

unfoldable pub fresh_results : ℕ → List WorkerResult
fresh_results zero = []
fresh_results (suc jobs) = no_result ∷ fresh_results jobs

-- Folding the map of a worker into the merged one.
unfoldable pub merge_lines : List (Bytes × List ℕ) → List (Bytes × List ℕ) → List (Bytes × List ℕ)
merge_lines [] merged = merged
merge_lines ((key, ps) ∷ lines) merged = merge_lines lines (push_postings key ps merged)

unfoldable pub merge_results : List WorkerResult → List (Bytes × List ℕ) → List (Bytes × List ℕ)
merge_results [] merged = merged
merge_results (r ∷ results) merged =
    merge_results results (if is_empty merged then r.lines else merge_lines r.lines merged)

-- Whether a posting of the map is of file `id`.
unfoldable pub has_file : ℕ → List ℕ → Bool
has_file id [] = false
has_file id (p ∷ ps) = posting_file p == id || has_file id ps

unfoldable pub is_used : List (Bytes × List ℕ) → ℕ → Bool
unfolding has_file
is_used [] id = false
is_used ((key, ps) ∷ merged) id = has_file id ps || is_used merged id

-- The files that are used, and the new number of each file.
unfoldable pub used_files : (ℕ → Bool) → ℕ → List NormFile → List Bytes
used_files used id [] = []
used_files used id (f ∷ files) =
    let rest = used_files used (id + 1) files in if used id then f.rel ∷ rest else rest

unfoldable pub remap_from : (ℕ → Bool) → ℕ → ℕ → List NormFile → List ℕ
remap_from used id next [] = []
remap_from used id next (f ∷ files) =
    let taken = remap_from used (id + 1) (next + 1) files in
    let skipped = remap_from used (id + 1) next files in
    if used id then next % 2 ^ 32 ∷ taken else 0 ∷ skipped

-- `remap[i]`, within its bounds.
unfoldable pub remap_at : List ℕ → ℕ → ℕ
remap_at remap i = elim (get_elem? remap i) [ none ↦ 0 | some id ↦ id ]

unfoldable pub renumber : List ℕ → ℕ → ℕ
unfolding remap_at
renumber remap p = pack (remap_at remap (posting_file p)) (posting_line p)

unfoldable pub renumber_lines : List ℕ → List (Bytes × List ℕ) → List (Bytes × List ℕ)
renumber_lines remap [] = []
renumber_lines remap ((key, ps) ∷ lines) =
    (key, sort_num (λ p. p) (map (renumber remap) ps)) ∷ renumber_lines remap lines

-- Compacting the file ids and sorting the postings of each key.
unfoldable pub compact : List NormFile → List (Bytes × List ℕ) → Index
compact files merged =
    let remap = remap_from (is_used merged) 0 0 files in
    record { files = used_files (is_used merged) 0 files; lines = renumber_lines remap merged }

-- `process_normalized_parallel` for that many jobs, at least one and at most one for each file.
unfoldable pub job_count : ℕ → ℕ → ℕ → ℕ
job_count option auto nfiles =
    let wanted = if option == 0 then auto else option in
    let some_jobs = if ltb wanted 1 then 1 else wanted in
    if ltb nfiles some_jobs then nfiles else some_jobs

module _ (normalize : Bytes → List NormLine) (min_len : ℕ) where
  unfoldable pub process_parallel : List NormFile → ℕ → List ℕ → Index
  process_parallel files jobs schedule =
      compact files
        (merge_results (run_workers normalize min_len schedule 0 files (fresh_results jobs)) [])
