-- ===== src/Indexer/Merging.antt =====
-- The index of a parallel build does not depend on the number of workers or on their timing.
use phpatcher.Base.{
  ◌==◌, if◌then◌else◌, Bool-cases, Bytes, equal, equal_iff, length, is_empty, All, ℕ, zero, suc,
  ◌+◌, ◌≤◌, ◌<◌, Bool, true, List, [], ◌∷◌, map, ◌↔◌, inl, inr, Option, none, ◌≡◌, refl, sym, ap,
  fun_ext, ◌∙◌, arith,
}
use phpatcher.Dict.{lookup, IsMap}
use phpatcher.Factorize.{sort_num}
use phpatcher.IndexFile.{posting_file}
use phpatcher.IndexFile.Keys.{kept}
use phpatcher.Indexer.{
  push_postings, NormFile, WorkerResult, run_workers, fresh_results, merge_lines, merge_results,
  has_file, is_used, used_files, remap_from, renumber, renumber_lines, compact, process_parallel,
}
use phpatcher.Indexer.Counts.{num, num-map, sorted, sorted-eq}
use phpatcher.Indexer.Workers.{
  or_nothing, postings, num-push_postings, push_postings-IsMap, AreMaps, total, files_total,
  run_workers-total,
}
use phpatcher.Normalizer.{NormLine}

num-merge_lines :
    (q : ℕ → Bool) (j : Bytes) (lines merged : List (Bytes × List ℕ))
    → IsMap lines
    → num q (postings j (merge_lines lines merged))
      ≡ num q (postings j merged) + num q (postings j lines)
unfolding merge_lines lookup
num-merge_lines q j [] merged _ = omega arith
num-merge_lines q j ((key, ps) ∷ lines) merged (once, h) =
    let rest = num-merge_lines q j lines (push_postings key ps merged) h in
    let first = num-push_postings q key j ps merged in
    elim (Bool-cases (equal key j)) [
      | inl e ↦
          let absent : lookup j lines ≡ none = rw ((equal_iff key j).0 e) at once in
          let nothing : num q (postings j lines) ≡ 0 =
            ap (λ (o : Option (List ℕ)). num q (or_nothing o)) absent in
          rw e (omega (arith, rest, rw e at first, nothing))
      | inr e ↦ rw e (omega (arith, rest, rw e at first))
    ]

merge_lines-IsMap :
    (lines merged : List (Bytes × List ℕ)) → IsMap merged → IsMap (merge_lines lines merged)
unfolding merge_lines
merge_lines-IsMap [] merged h = h
merge_lines-IsMap ((key, ps) ∷ lines) merged h =
    merge_lines-IsMap lines (push_postings key ps merged) (push_postings-IsMap key ps merged h)

merge_step :
    (q : ℕ → Bool) (j : Bytes) (r : WorkerResult) (merged : List (Bytes × List ℕ))
    → IsMap r.lines
    → IsMap merged
    → let next = if is_empty merged then r.lines else merge_lines r.lines merged in
      (num q (postings j next) ≡ num q (postings j merged) + num q (postings j r.lines))
      × IsMap next
unfolding lookup
merge_step q j r [] m h = (omega arith, m)
merge_step q j r (kv ∷ merged) m h =
    (num-merge_lines q j r.lines (kv ∷ merged) m, merge_lines-IsMap r.lines (kv ∷ merged) h)

merge_results-total :
    (q : ℕ → Bool) (j : Bytes) (results : List WorkerResult) (merged : List (Bytes × List ℕ))
    → All (λ r. IsMap r.lines) results
    → IsMap merged
    → (num q (postings j (merge_results results merged))
        ≡ num q (postings j merged) + total q j results)
      × IsMap (merge_results results merged)
unfolding merge_results
merge_results-total q j [] merged _ h = (omega arith, h)
merge_results-total q j (r ∷ results) merged (m, maps) h =
    let (first, h') = merge_step q j r merged m h in
    let (rest, h'') = merge_results-total q j results _ maps h' in (omega (arith, first, rest), h'')

-- Two maps with the same postings, in any order.
pub record SamePostings (m n : List (Bytes × List ℕ)) : Type 0 where
  pub left : IsMap m
  pub right : IsMap n
  pub counts : (key : Bytes) (q : ℕ → Bool) → num q (postings key m) ≡ num q (postings key n)

of_file : ℕ → ℕ → Bool
of_file id p = posting_file p == id

has_file-num : (id : ℕ) (ps : List ℕ) → (has_file id ps ≡ true) ↔ (0 < num (of_file id) ps)
unfolding has_file of_file
has_file-num id [] = ground arith
has_file-num id (p ∷ ps) = ground (arith, has_file-num id ps)

is_used-some :
    (id : ℕ) (m : List (Bytes × List ℕ))
    → IsMap m
    → is_used m id ≡ true
    → (key : Bytes) × (0 < num (of_file id) (postings key m))
unfolding is_used lookup
is_used-some id [] _ e = cc
is_used-some id ((key, ps) ∷ m) (once, h) e = elim (Bool-cases (has_file id ps)) [
  | inl f ↦
      let here : equal key key ≡ true = (equal_iff key key).1 refl in
      (key, rw here ((has_file-num id ps).0 f))
  | inr f ↦
      let (j, some_left) = is_used-some id m h (rw f at e) in
      elim (Bool-cases (equal key j)) [
        | inl g ↦
            let absent : lookup j m ≡ none = rw ((equal_iff key j).0 g) at once in
            let nothing : num (of_file id) (postings j m) ≡ 0 =
              ap (λ (o : Option (List ℕ)). num (of_file id) (or_nothing o)) absent in
            absurd (omega (arith, some_left, nothing))
        | inr g ↦ (j, rw g some_left)
      ]
]

some-is_used :
    (id : ℕ) (m : List (Bytes × List ℕ)) (key : Bytes)
    → 0 < num (of_file id) (postings key m)
    → is_used m id ≡ true
unfolding is_used lookup
some-is_used id [] key h = absurd (omega arith)
some-is_used id ((j, ps) ∷ m) key h = elim (Bool-cases (equal j key)) [
  | inl e ↦ rw ((has_file-num id ps).1 (rw e at h)) refl
  | inr e ↦ rw (some-is_used id m key (rw e at h)) (ground arith)
]

is_used_mono :
    (id : ℕ) (m n : List (Bytes × List ℕ))
    → IsMap m
    → ((key : Bytes) (q : ℕ → Bool) → num q (postings key m) ≡ num q (postings key n))
    → is_used m id ≡ true
    → is_used n id ≡ true
is_used_mono id m n h counts e =
    let (key, some_left) = is_used-some id m h e in
    some-is_used id n key (omega (arith, some_left, counts key (of_file id)))

is_used-same : (m n : List (Bytes × List ℕ)) → SamePostings m n → is_used m ≡ is_used n
is_used-same m n s = fun_ext λ id. elim (Bool-cases (is_used m id)) [
  | inl e ↦ e ∙ sym (is_used_mono id m n s.left s.counts e)
  | inr e ↦ elim (Bool-cases (is_used n id)) [
    | inl f ↦ cc (is_used_mono id n m s.right (λ key q. sym (s.counts key q)) f)
    | inr f ↦ e ∙ sym f
  ]
]

postings-renumber_lines :
    (remap : List ℕ) (key : Bytes) (m : List (Bytes × List ℕ))
    → postings key (renumber_lines remap m) ≡ sorted (map (renumber remap) (postings key m))
unfolding renumber_lines lookup
postings-renumber_lines remap key [] = unfold sort_num in refl
postings-renumber_lines remap key ((j, ps) ∷ m) = elim (Bool-cases (equal j key)) [
  | inl e ↦ rw e refl
  | inr e ↦ rw e (postings-renumber_lines remap key m)
]

compact-same :
    (files : List NormFile) (m n : List (Bytes × List ℕ)) (key : Bytes)
    → SamePostings m n
    → ((compact files m).files ≡ (compact files n).files)
      × (postings key (compact files m).lines ≡ postings key (compact files n).lines)
unfolding compact
compact-same files m n key s =
    let used = is_used-same m n s in
    let remap = λ (m' : List (Bytes × List ℕ)). remap_from (is_used m') 0 0 files in
    let remaps : remap m ≡ remap n = ap (λ u. remap_from u 0 0 files) used in
    (
      ap (λ u. used_files u 0 files) used,
      postings-renumber_lines (remap m) key m
          ∙ (sorted-eq (map (renumber (remap m)) (postings key m))
                (map (renumber (remap m)) (postings key n))
                (λ q.
                  num-map q (renumber (remap m)) (postings key m)
                  ∙ (s.counts key (λ x. q (renumber (remap m) x))
                      ∙ sym (num-map q (renumber (remap m)) (postings key n))))
              ∙ (ap (λ r. sorted (map (renumber r) (postings key n))) remaps
                  ∙ sym (postings-renumber_lines (remap n) key n))),
    )

fresh_results-total :
    (q : ℕ → Bool) (j : Bytes) (jobs : ℕ)
    → (total q j (fresh_results jobs) ≡ 0)
      × AreMaps (fresh_results jobs)
      × (length (fresh_results jobs) ≡ jobs)
unfolding fresh_results lookup
fresh_results-total q j zero = (refl, tt, refl)
fresh_results-total q j (suc jobs) =
    let (nothing, maps, size) = fresh_results-total q j jobs in
    (omega arith, (tt, maps), omega arith)

module _ (normalize : Bytes → List NormLine) (min_len : ℕ) (files : List NormFile) where
  -- A schedule of some workers in which every file gets its turn.
  abbrev pub IsComplete : ℕ → List ℕ → Type 0
  IsComplete jobs schedule = All (λ w. w < jobs) schedule × (length files ≤ length schedule)

  abbrev merged_of : ℕ → List ℕ → List (Bytes × List ℕ)
  merged_of jobs schedule =
      merge_results (run_workers normalize min_len schedule 0 files (fresh_results jobs)) []

  merged-total :
      (q : ℕ → Bool) (j : Bytes) (jobs : ℕ) (schedule : List ℕ)
      → IsComplete jobs schedule
      → (num q (postings j (merged_of jobs schedule)) ≡ files_total normalize min_len q j 0 files)
        × IsMap (merged_of jobs schedule)
  unfolding lookup
  merged-total q j jobs schedule (workers, enough) =
      let (nothing, maps, size) = fresh_results-total q j jobs in
      let (sum, kept) =
        run_workers-total normalize min_len q j schedule 0 files (fresh_results jobs)
          (rw (sym size) at workers) enough maps in
      let (all, h) =
        merge_results-total q j
          (run_workers normalize min_len schedule 0 files (fresh_results jobs)) [] kept tt in
      (omega (arith, all, sum, nothing), h)

  -- Whatever the numbers of workers and the orders in which they take the files, the index has the
  -- same files, and for each key the same postings.
  pub process_parallel-schedule :
      (jobs jobs' : ℕ) (schedule schedule' : List ℕ) (key : Bytes)
      → IsComplete jobs schedule
      → IsComplete jobs' schedule'
      → let idx = process_parallel normalize min_len files jobs schedule in
        let idx' = process_parallel normalize min_len files jobs' schedule' in
        (idx.files ≡ idx'.files) × (postings key idx.lines ≡ postings key idx'.lines)
  unfolding process_parallel
  process_parallel-schedule jobs jobs' schedule schedule' key h h' =
      compact-same files (merged_of jobs schedule) (merged_of jobs' schedule') key (record {
        left = (merged-total (λ _. true) key jobs schedule h).1;
        right = (merged-total (λ _. true) key jobs' schedule' h').1;
        counts = λ j q.
            (merged-total q j jobs schedule h).0 ∙ sym (merged-total q j jobs' schedule' h').0;
      })
