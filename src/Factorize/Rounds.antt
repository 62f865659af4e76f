-- ===== src/Factorize/Rounds.antt =====
-- The candidate of a round is verified line by line and meets no accepted run.
use phpatcher.Base.{
  ltb, leb, Bool-cases, All, ℕ, ◌+◌, ◌-◌, ◌≤◌, ◌<◌, Bool, true, false, List, [], ◌∷◌, inl, inr,
  Option, none, some, ◌≡◌, arith,
}
use phpatcher.Factorize.{
  Run, run_size, is_covered, extend_up, extend_down, better, extended, best_run,
}
use phpatcher.Factorize.Extend.{
  Matches, Matches-one, Matches-join, extend_up-UpFrom, extend_down-DownFrom,
}
use phpatcher.IndexFile.{Posting}
use phpatcher.Words.{IsU32}

-- No line of the run is covered; all of them are.
abbrev pub IsFree : List Bool → Run → Type 0
IsFree covered r = (k : ℕ) → r.block_begin ≤ k → k < r.block_end → is_covered covered k ≡ false

abbrev pub IsMarked : List Bool → Run → Type 0
IsMarked covered r = (k : ℕ) → r.block_begin ≤ k → k < r.block_end → is_covered covered k ≡ true

module _ (equal_at : ℕ → ℕ → ℕ → Bool) (n : ℕ) where
  -- A run within a block of `n` lines: every line of it matches its line of the corpus.
  pub record IsRun (r : Run) : Type 0 where
    pub nonempty : r.block_begin < r.block_end
    pub bound : r.block_end ≤ n
    pub first : 1 ≤ r.corpus_begin
    pub same_length : r.corpus_end + 1 ≡ r.corpus_begin + run_size r
    pub verified :
        (i : ℕ)
        → i < run_size r
        → equal_at (r.block_begin + i) r.file_id (r.corpus_begin + i) ≡ true

  abbrev pub Candidate : List Bool → Option Run → Type 0
  Candidate covered none = Unit
  Candidate covered (some r) = IsRun r × IsFree covered r

  Matches-run :
      (covered : List Bool) (file b0 b1 c0 c1 : ℕ)
      → b0 ≤ b1
      → b1 < n
      → 1 ≤ c0
      → c1 ≡ c0 + (b1 - b0)
      → Matches equal_at covered file b0 c0 (b1 + 1 - b0)
      → Candidate covered (
          some (record {
            block_begin = b0;
            block_end = b1 + 1;
            file_id = file;
            corpus_begin = c0;
            corpus_end = c1;
          }))
  unfolding run_size
  Matches-run covered file b0 b1 c0 c1 ordered within first sum all = (
    record {
      nonempty = omega arith;
      bound = omega arith;
      first = first;
      same_length = omega arith;
      verified = λ i lt. (all i lt).1;
    },
    λ k lo hi. let e : b0 + (k - b0) ≡ k = omega arith in rw e at (all (k - b0) (omega arith)).0,
  )

  module _ (none_first : (b file : ℕ) → equal_at b file 0 ≡ false) (covered : List Bool)
      (pos : ℕ) where
    line_first : (file pos c : ℕ) → equal_at pos file c ≡ true → 1 ≤ c
    line_first file pos c same = elim (Bool-cases (leb 1 c)) [
      | inl e ↦ ground arith
      | inr e ↦
          let zero_line : c ≡ 0 = ground arith in
          let back : equal_at pos file 0 ≡ true = rw zero_line at same in cc (none_first pos file)
    ]

    extended-Candidate :
        (pp : Posting)
        → pos < n
        → IsU32 pp.lineno
        → is_covered covered pos ≡ false
        → equal_at pos pp.file_id pp.lineno ≡ true
        → Candidate covered (some (extended equal_at n covered pos pp))
    unfolding extended
    extended-Candidate pp within fits free same =
        let file = pp.file_id in
        let c = pp.lineno in
        let first : 1 ≤ c = line_first file pos c same in
        let (b0, c0) = extend_up equal_at covered file pos c in
        let (b1, c1) = extend_down equal_at covered file (n - (pos + 1)) pos c in
        let (up, above, sum, front) = extend_up-UpFrom equal_at covered file pos c first in
        let (down, bound, end, back) =
          extend_down-DownFrom equal_at covered file (n - (pos + 1)) pos c fits
            (λ b. none_first b file) in
        Matches-run covered file b0 b1 c0 c1 (omega arith) (omega arith) above (omega arith) (
          Matches-join equal_at covered file b0 c0 pos c b1 up down sum front
            (Matches-one equal_at covered file pos c free same) back)

    better-Candidate :
        (o : Option Run) (r : Run)
        → Candidate covered o
        → Candidate covered (some r)
        → Candidate covered (better o r)
    unfolding better
    better-Candidate none r _ h = h
    better-Candidate (some best) r hb h = elim (Bool-cases (ltb (run_size best) (run_size r))) [
      | inl e ↦ rw e h
      | inr e ↦ rw e hb
    ]

    pub best_run-Candidate :
        (post : List Posting) (o : Option Run)
        → pos < n
        → All (λ pp. IsU32 pp.lineno) post
        → is_covered covered pos ≡ false
        → Candidate covered o
        → Candidate covered (best_run equal_at n covered pos post o)
    unfolding best_run
    best_run-Candidate [] o within _ free h = h
    best_run-Candidate (pp ∷ post) o within (fits, more) free h =
        elim (Bool-cases (equal_at pos pp.file_id pp.lineno)) [
          | inl e ↦ rw e (
              best_run-Candidate post _ within more free (
                better-Candidate o (extended equal_at n covered pos pp) h
                  (extended-Candidate pp within fits free e)))
          | inr e ↦ rw e (best_run-Candidate post o within more free h)
        ]
