-- ===== src/Factorize/Accepted.antt =====
-- The runs that are accepted are long enough, verified line by line, and do not overlap.
use phpatcher.Base.{
  leb, Bool-cases, Option-cases, Bytes, length, get_elem?, All, All-append, All-map, All-both, ℕ,
  zero, suc, ◌+◌, ◌≤◌, ◌<◌, Bool, false, List, [], ◌∷◌, ◌++◌, ◌⊎◌, inl, inr, Option, none, some,
  ◌≡◌, ◌∙◌, arith,
}
use phpatcher.Factorize.{
  Run, run_size, Anchor, is_covered, cover_range, Progress, accept, postings_at, round, rounds,
}
use phpatcher.Factorize.Covered.{length-cover_range, is_covered-cover_range}
use phpatcher.Factorize.Rounds.{IsFree, IsMarked, IsRun, Candidate, best_run-Candidate}
use phpatcher.IndexFile.{Posting}
use phpatcher.Words.{IsU32}

abbrev pub Apart : Run → Run → Type 0
Apart r s = (r.block_end ≤ s.block_begin) ⊎ (s.block_end ≤ r.block_begin)

abbrev pub IsApart : List Run → Type 0
IsApart [] = Unit
IsApart (r ∷ runs) = All (Apart r) runs × IsApart runs

IsApart-push :
    (runs : List Run) (r : Run)
    → IsApart runs
    → All (λ s. Apart s r) runs
    → IsApart (runs ++ r ∷ [])
IsApart-push [] r _ _ = (tt, tt)
IsApart-push (s ∷ runs) r (hs, h) (hr, all) =
    (All-append (Apart s) runs (r ∷ []) hs (hr, tt), IsApart-push runs r h all)

module _ (keys : List Bytes) (min_run : ℕ) (postings_of : Bytes → Option (List Posting))
    (equal_at : ℕ → ℕ → ℕ → Bool) where
  abbrev pub IsAccepted : Run → Type 0
  IsAccepted r = IsRun equal_at (length keys) r × (min_run ≤ run_size r)

  pub record IsProgress (st : Progress) : Type 0 where
    pub size : length st.covered ≡ length keys
    pub accepted : All IsAccepted st.runs
    pub marked : All (IsMarked st.covered) st.runs
    pub apart : IsApart st.runs

  Apart-free :
      (covered : List Bool) (r s : Run)
      → IsRun equal_at (length keys) r × IsMarked covered r
      → IsRun equal_at (length keys) s
      → IsFree covered s
      → Apart r s
  Apart-free covered r s (hr, marked) hs free = elim (Bool-cases (leb r.block_end s.block_begin)) [
    | inl e ↦ inl (ground arith)
    | inr e ↦ elim (Bool-cases (leb s.block_end r.block_begin)) [
      | inl f ↦ inr (ground arith)
      | inr f ↦ elim (Bool-cases (leb r.block_begin s.block_begin)) [
        | inl g ↦ both s.block_begin (ground arith) (ground arith) (omega arith) (ground arith)
        | inr g ↦ both r.block_begin (omega arith) (ground arith) (ground arith) (ground arith)
      ]
    ]
  ]
    where
      both :
          (k : ℕ)
          → r.block_begin ≤ k
          → k < r.block_end
          → s.block_begin ≤ k
          → k < s.block_end
          → Apart r s
      both k lr hr' ls hs' = cc (marked k lr hr', free k ls hs')

  IsMarked-cover_range :
      (count k : ℕ) (covered : List Bool) (r : Run)
      → k + count ≤ length covered
      → IsMarked covered r
      → IsMarked (cover_range count k covered) r
  IsMarked-cover_range count k covered r fits h j lo hi =
      ground (arith, is_covered-cover_range count k j covered fits, h j lo hi)

  -- An accepted run joins the others.
  accept-IsProgress :
      (o : Option Run) (st : Progress)
      → Candidate equal_at (length keys) st.covered o
      → IsProgress st
      → IsProgress (accept min_run o st)
  unfolding accept run_size
  accept-IsProgress none st _ h = h
  accept-IsProgress (some r) st (hr, free) h = elim (Bool-cases (leb min_run (run_size r))) [
    | inl e ↦
        let count = run_size r in
        let within : r.block_begin + count ≤ length st.covered =
          omega (arith, h.size, hr.bound, hr.nonempty) in
        rw e (record {
          size = length-cover_range count r.block_begin st.covered ∙ h.size;
          accepted = All-append IsAccepted st.runs (r ∷ []) h.accepted ((hr, ground arith), tt);
          marked =
              All-append (IsMarked (cover_range count r.block_begin st.covered)) st.runs (r ∷ [])
                (All-map (IsMarked st.covered)
                  (IsMarked (cover_range count r.block_begin st.covered)) st.runs
                  (λ s. IsMarked-cover_range count r.block_begin st.covered s within) h.marked)
                (
                  λ j lo hi.
                      ground
                        (arith, is_covered-cover_range count r.block_begin j st.covered within),
                  tt,
                );
          apart = IsApart-push st.runs r h.apart (
              All-map (λ s. IsAccepted s × IsMarked st.covered s) (λ s. Apart s r) st.runs
                (λ s (accepted, marked). Apart-free st.covered s r (accepted.0, marked) hr free)
                (All-both IsAccepted (IsMarked st.covered) st.runs h.accepted h.marked));
        })
    | inr e ↦ rw e h
  ]

  module _ (none_first : (b file : ℕ) → equal_at b file 0 ≡ false)
      (words : (key : Bytes) (post : List Posting)
        → postings_of key ≡ some post
        → All (λ pp. IsU32 pp.lineno) post) where
    get_elem?-lt : (xs : List Bytes) (i : ℕ) (x : Bytes) → get_elem? xs i ≡ some x → i < length xs
    get_elem?-lt [] i x e = cc
    get_elem?-lt (y ∷ xs) zero x e = omega arith
    get_elem?-lt (y ∷ xs) (suc i) x e = omega (arith, get_elem?-lt xs i x e)

    postings_at-words :
        (pos : ℕ) (post : List Posting)
        → postings_at keys min_run postings_of equal_at pos ≡ some post
        → (pos < length keys) × All (λ pp. IsU32 pp.lineno) post
    unfolding postings_at
    postings_at-words pos post e = elim (Option-cases (get_elem? keys pos)) [
      | inl g ↦ cc (rw (postings_at, g) at e)
      | inr (key, g) ↦ (get_elem?-lt keys pos key g, words key post (rw (postings_at, g) at e))
    ]

    round-IsProgress :
        (a : Anchor) (st : Progress)
        → IsProgress st
        → IsProgress (round keys min_run postings_of equal_at a st)
    unfolding round
    round-IsProgress a st h =
        elim (Option-cases (postings_at keys min_run postings_of equal_at a.pos)) [
          | inl e ↦ rw (round, e) h
          | inr (post, e) ↦
              let (within, fits) = postings_at-words a.pos post e in
              elim (Bool-cases (is_covered st.covered a.pos)) [
                | inl c ↦ rw (round, e, c) h
                | inr c ↦
                    rw (round, e, c)
                      (accept-IsProgress _ st
                        (best_run-Candidate equal_at (length keys) none_first st.covered a.pos post
                          none within fits c tt)
                        h)
              ]
        ]

    pub rounds-IsProgress :
        (anchors : List Anchor) (st : Progress)
        → IsProgress st
        → IsProgress (rounds keys min_run postings_of equal_at anchors st)
    unfolding rounds
    rounds-IsProgress [] st h = h
    rounds-IsProgress (a ∷ anchors) st h =
        rounds-IsProgress anchors (round keys min_run postings_of equal_at a st)
          (round-IsProgress a st h)
