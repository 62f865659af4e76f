-- ===== src/Factorize.antt =====
-- tools/matcher_core.hpp, lines 32 to 124: `factorize`. `postings_of` and `equal` are its callers'.
-- Positions in the block are size_t, line numbers uint32_t, so that `c1 + 1` wraps around. std::sort
-- may order anchors of the same weight in any way; here they keep their order.
pub mod Extend
pub mod Rounds
pub mod Covered
pub mod Accepted
pub mod Sorted
use phpatcher.Base.{
  ltb, leb, ◌==◌, if◌then◌else◌, Bytes, length, get_elem?, ℕ, zero, suc, ◌+◌, ◌-◌, ◌%◌, ◌^◌, Bool,
  true, false, not, ◌&&◌, List, [], ◌∷◌, ◌++◌, Option, none, some,
}
use phpatcher.IndexFile.{Posting}

pub record Run : Type 0 where
  pub block_begin : ℕ
  pub block_end : ℕ
  pub file_id : ℕ
  pub corpus_begin : ℕ
  pub corpus_end : ℕ

unfoldable pub run_size : Run → ℕ
run_size r = r.block_end - r.block_begin

pub record Anchor : Type 0 where
  pub pos : ℕ
  pub weight : ℕ

-- std::sort by a number.
module _ {A : Type 0} (key : A → ℕ) where
  unfoldable pub insert_num : A → List A → List A
  insert_num x [] = x ∷ []
  insert_num x (y ∷ ys) = if ltb (key y) (key x) then y ∷ insert_num x ys else x ∷ y ∷ ys

  unfoldable pub sort_num : List A → List A
  unfolding insert_num
  sort_num [] = []
  sort_num (x ∷ xs) = insert_num x (sort_num xs)

-- `covered[i]`, and setting a range of it from `k` on.
unfoldable pub is_covered : List Bool → ℕ → Bool
is_covered [] i = false
is_covered (b ∷ covered) zero = b
is_covered (b ∷ covered) (suc i) = is_covered covered i

unfoldable pub cover : ℕ → List Bool → List Bool
cover k [] = []
cover zero (b ∷ covered) = true ∷ covered
cover (suc k) (b ∷ covered) = b ∷ cover k covered

unfoldable pub cover_range : ℕ → ℕ → List Bool → List Bool
unfolding cover
cover_range zero k covered = covered
cover_range (suc count) k covered = cover_range count (k + 1) (cover k covered)

unfoldable pub uncovered : ℕ → List Bool
uncovered zero = []
uncovered (suc n) = false ∷ uncovered n

-- The anchors from position `i` on.
unfoldable pub anchors_from : (Bytes → Option (List Posting)) → ℕ → List Bytes → List Anchor
anchors_from postings_of i [] = []
anchors_from postings_of i (key ∷ keys) = elim (postings_of key) [
  | none ↦ anchors_from postings_of (i + 1) keys
  | some post ↦ record { pos = i; weight = length post } ∷ anchors_from postings_of (i + 1) keys
]

module _ (equal_at : ℕ → ℕ → ℕ → Bool) (covered : List Bool) (file : ℕ) where
  -- The loop upwards, from `b0` and `c0`.
  unfoldable pub extend_up : ℕ → ℕ → ℕ × ℕ
  unfolding is_covered
  extend_up zero c0 = (0, c0)
  extend_up (suc b) c0 =
      let further = extend_up b (c0 - 1) in
      if ltb 1 c0 && not (is_covered covered b) && equal_at b file (c0 - 1)
      then further
      else (suc b, c0)

  -- The loop downwards, with `left` lines of the block behind `b1`.
  unfoldable pub extend_down : ℕ → ℕ → ℕ → ℕ × ℕ
  unfolding is_covered
  extend_down zero b1 c1 = (b1, c1)
  extend_down (suc left) b1 c1 =
      let further = extend_down left (b1 + 1) ((c1 + 1) % 2 ^ 32) in
      if not (is_covered covered (b1 + 1)) && equal_at (b1 + 1) file ((c1 + 1) % 2 ^ 32)
      then further
      else (b1, c1)

-- `!found || len > best.length()`
unfoldable pub better : Option Run → Run → Option Run
better none r = some r
better (some best) r = if ltb (run_size best) (run_size r) then some r else some best

-- `n` is the length of the block.
module _ (equal_at : ℕ → ℕ → ℕ → Bool) (n : ℕ) (covered : List Bool) (pos : ℕ) where
  unfoldable pub extended : Posting → Run
  unfolding extend_up extend_down
  extended pp =
      let (b0, c0) = extend_up equal_at covered pp.file_id pos pp.lineno in
      let (b1, c1) = extend_down equal_at covered pp.file_id (n - (pos + 1)) pos pp.lineno in
      record {
        block_begin = b0;
        block_end = b1 + 1;
        file_id = pp.file_id;
        corpus_begin = c0;
        corpus_end = c1;
      }

  -- The loop over the postings; `none` until one is found.
  unfoldable pub best_run : List Posting → Option Run → Option Run
  best_run [] best = best
  best_run (pp ∷ post) best =
      best_run post (if equal_at pos pp.file_id pp.lineno then better best (extended pp) else best)

pub record Progress : Type 0 where
  pub covered : List Bool
  pub runs : List Run

-- A run that was found is kept if it is long enough.
unfoldable pub accept : ℕ → Option Run → Progress → Progress
accept min_run none st = st
accept min_run (some best) st =
    if leb min_run (run_size best)
    then record {
      covered = cover_range (run_size best) best.block_begin st.covered;
      runs = st.runs ++ best ∷ [];
    }
    else st

module _ (keys : List Bytes) (min_run : ℕ) (postings_of : Bytes → Option (List Posting))
    (equal_at : ℕ → ℕ → ℕ → Bool) where
  -- The postings at the anchor's position.
  unfoldable pub postings_at : ℕ → Option (List Posting)
  postings_at pos = elim (get_elem? keys pos) [ none ↦ none | some key ↦ postings_of key ]

  -- A round of the loop over the anchors.
  unfoldable pub round : Anchor → Progress → Progress
  round anchor st = elim (postings_at anchor.pos) [
    | none ↦ st
    | some post ↦
        if is_covered st.covered anchor.pos
        then st
        else accept min_run (best_run equal_at (length keys) st.covered anchor.pos post none) st
  ]

  unfoldable pub rounds : List Anchor → Progress → Progress
  rounds [] st = st
  rounds (a ∷ anchors) st = rounds anchors (round a st)

unfoldable pub factorize :
    List Bytes → ℕ → (Bytes → Option (List Posting)) → (ℕ → ℕ → ℕ → Bool) → List Run
factorize keys min_run postings_of equal_at =
    sort_num (λ r. r.block_begin)
      (rounds keys (if min_run == 0 then 1 else min_run) postings_of equal_at
        (sort_num (λ a. a.weight) (anchors_from postings_of 0 keys))
        (record { covered = uncovered (length keys); runs = [] })).runs
