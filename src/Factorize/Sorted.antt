-- ===== src/Factorize/Sorted.antt =====
-- What `factorize` returns.
use phpatcher.Base.{
  ltb, ◌==◌, if◌then◌else◌, Bool-cases, Bytes, length, All, All-map, ℕ, zero, suc, ◌≤◌, ◌<◌, Bool,
  false, List, [], ◌∷◌, inl, inr, Option, some, ◌≡◌, refl, arith,
}
use phpatcher.Factorize.{
  Run, run_size, insert_num, sort_num, uncovered, anchors_from, Progress, rounds, factorize,
}
use phpatcher.Factorize.Accepted.{Apart, IsApart, IsAccepted, rounds-IsProgress}
use phpatcher.Factorize.Rounds.{IsRun}
use phpatcher.IndexFile.{Posting}
use phpatcher.Words.{IsU32}

module _ {A : Type 0} (key : A → ℕ) (P : A → Type 0) where
  insert_num-All : (x : A) (xs : List A) → P x → All P xs → All P (insert_num key x xs)
  unfolding insert_num
  insert_num-All x [] px _ = (px, tt)
  insert_num-All x (y ∷ xs) px (py, h) = elim (Bool-cases (ltb (key y) (key x))) [
    | inl e ↦ rw e (py, insert_num-All x xs px h)
    | inr e ↦ rw e (px, (py, h))
  ]

  sort_num-All : (xs : List A) → All P xs → All P (sort_num key xs)
  unfolding sort_num
  sort_num-All [] _ = tt
  sort_num-All (x ∷ xs) (px, h) = insert_num-All x (sort_num key xs) px (sort_num-All xs h)

abbrev Before : Run → Run → Type 0
Before r s = r.block_end ≤ s.block_begin

-- From the first to the last, without overlap.
abbrev pub IsChain : List Run → Type 0
IsChain [] = Unit
IsChain (r ∷ runs) = All (Before r) runs × IsChain runs

abbrev IsNonempty : Run → Type 0
IsNonempty r = r.block_begin < r.block_end

abbrev begin_of : Run → ℕ
begin_of r = r.block_begin

insert_num-IsChain :
    (r : Run) (runs : List Run)
    → IsNonempty r
    → All IsNonempty runs
    → All (Apart r) runs
    → IsChain runs
    → IsChain (insert_num begin_of r runs)
unfolding insert_num
insert_num-IsChain r [] _ _ _ _ = (tt, tt)
insert_num-IsChain r (s ∷ runs) hr (hs, some_lines) (apart, all) (first, chain) =
    elim (Bool-cases (ltb s.block_begin r.block_begin)) [
      | inl e ↦ rw e (
        insert_num-All begin_of (Before s) r runs (ground arith) first,
        insert_num-IsChain r runs hr some_lines all chain,
      )
      | inr e ↦
          let ahead : Before r s = ground arith in
          rw e
            ((ahead, All-map (Before s) (Before r) runs (λ t h. omega arith) first), (first, chain))
    ]

sort_num-IsChain :
    (runs : List Run) → All IsNonempty runs → IsApart runs → IsChain (sort_num begin_of runs)
unfolding sort_num
sort_num-IsChain [] _ _ = tt
sort_num-IsChain (r ∷ runs) (hr, h) (first, apart) =
    insert_num-IsChain r (sort_num begin_of runs) hr (sort_num-All begin_of IsNonempty runs h)
      (sort_num-All begin_of (Apart r) runs first) (sort_num-IsChain runs h apart)

length-uncovered : (n : ℕ) → length (uncovered n) ≡ n
unfolding uncovered
length-uncovered zero = refl
length-uncovered (suc n) = omega (arith, length-uncovered n)

-- The runs lie within the block, from the first to the last and without overlap; each has at least
-- `min_run` lines, and one; and each line of a run matches its line of the corpus.
pub factorize_lem :
    (keys : List Bytes) (min_run : ℕ) (postings_of : Bytes → Option (List Posting))
    (equal_at : ℕ → ℕ → ℕ → Bool)
    → ((b file : ℕ) → equal_at b file 0 ≡ false)
    → ((key : Bytes) (post : List Posting)
        → postings_of key ≡ some post
        → All (λ pp. IsU32 pp.lineno) post)
    → let runs = factorize keys min_run postings_of equal_at in
      All (λ r. IsRun equal_at (length keys) r × (min_run ≤ run_size r)) runs × IsChain runs
unfolding factorize
factorize_lem keys min_run postings_of equal_at none_first words =
    let at_least = if min_run == 0 then 1 else min_run in
    let anchors = sort_num (λ a. a.weight) (anchors_from postings_of 0 keys) in
    let start : Progress = record { covered = uncovered (length keys); runs = [] } in
    let h =
      rounds-IsProgress keys at_least postings_of equal_at none_first words anchors start (record {
        size = length-uncovered (length keys);
        accepted = tt;
        marked = tt;
        apart = tt;
      }) in
    let done = rounds keys at_least postings_of equal_at anchors start in
    (
      sort_num-All begin_of (λ r. IsRun equal_at (length keys) r × (min_run ≤ run_size r)) done.runs
          (All-map (IsAccepted keys at_least postings_of equal_at)
            (λ r. IsRun equal_at (length keys) r × (min_run ≤ run_size r)) done.runs
            (λ r (run, long). (run, ground arith)) h.accepted),
      sort_num-IsChain done.runs
          (All-map (IsAccepted keys at_least postings_of equal_at) IsNonempty done.runs
            (λ r (run, long). run.nonempty) h.accepted)
          h.apart,
    )
