-- ===== src/Matcher/Summary.antt =====
-- tools/matcher.cpp as a whole: what it writes for a block, and the numbers of its summary.
use phpatcher.Base.{
  if◌then◌else◌, Bool-cases, Bytes, length, is_empty, All, All-always, All-map, ℕ, ◌+◌, ◌-◌, ◌^◌,
  ◌≤◌, ◌<◌, Bool, true, false, List, [], ◌∷◌, map, ◌⊎◌, inl, inr, some, ◌≡◌, refl, sym, ap, ◌∙◌,
  arith,
}
use phpatcher.Factorize.{Run, run_size, factorize}
use phpatcher.Factorize.Rounds.{IsRun}
use phpatcher.Factorize.Sorted.{factorize_lem}
use phpatcher.Generator.{Corpus, trim}
use phpatcher.Generator.Added.{
  at, normalize_block_keys, line_is, emit_loop, block_keys, lines_equal, block_runs,
  emit_added_corpus,
}
use phpatcher.Generator.Added.Blocks.{line_is-zero, HasWords}
use phpatcher.IndexFile.{Loaded, find_postings}
use phpatcher.Matcher.{Tally, match_keys, match_equal, match_runs, match_block, literal_lines}
use phpatcher.Matcher.Counted.{IsInside, match_loop-Counts}
use phpatcher.Matcher.Written.{HasNoNul, written_of, match_loop-emit_loop}
use phpatcher.Normalizer.{NormLine}
use phpatcher.Resolver.{split_corpus_lines}
use phpatcher.Text.Lines.{terminated}

empty_block :
    (corpus : Corpus) (file : ℕ → Bytes) (hash normalized : Bool) (runs : List Run)
    (ls : List Bytes)
    → is_empty ls ≡ true
    → emit_loop corpus file hash ls normalized (length ls) runs 0 ≡ some []
unfolding emit_loop
empty_block corpus file hash normalized runs [] e = refl
empty_block corpus file hash normalized runs (x ∷ ls) e = cc

-- A block with a newline behind every line, or a byte index, so that the generator and the matcher
-- take the same keys.
abbrev pub TakesSameKeys : Loaded → Bytes → Type 0
TakesSameKeys idx content =
    (idx.normalized ≡ false) ⊎ (terminated (split_corpus_lines content) ≡ content)

module _ (run : Bytes → List NormLine) (idx : Loaded) (corpus keys_of : Corpus) (file : ℕ → Bytes)
    (hash : Bool) (min_run : ℕ) (content : Bytes) where
  abbrev block : List Bytes
  block = split_corpus_lines content

  match_keys-block_keys :
      TakesSameKeys idx content
      → match_keys run idx corpus keys_of file hash min_run content
        ≡ block_keys run idx corpus keys_of file hash min_run block
  unfolding match_keys block_keys
  match_keys-block_keys (inl bytes) = rw (match_keys, block_keys, bytes) refl
  match_keys-block_keys (inr whole) =
      ap
        (λ (text : Bytes). if idx.normalized then normalize_block_keys run text else map trim block)
        (sym whole)

  match_runs-block_runs :
      TakesSameKeys idx content
      → match_runs run idx corpus keys_of file hash min_run content
        ≡ block_runs run idx corpus keys_of file hash min_run block
  unfolding match_runs block_runs match_equal lines_equal
  match_runs-block_runs same =
      ap
        (λ (keys : List Bytes). factorize keys min_run (find_postings idx) λ bpos file_id lineno.
          if idx.normalized
          then line_is keys_of file_id lineno (at keys bpos)
          else line_is corpus file_id lineno (at block bpos))
        (match_keys-block_keys same)

  -- Without a NUL byte in them, the matcher writes the lines that the generator writes for the lines of the block.
  pub match_block-emit_added_corpus :
      TakesSameKeys idx content
      → All HasNoNul block
      → written_of (match_block run idx corpus keys_of file hash min_run content)
        ≡ emit_added_corpus run idx corpus keys_of file hash min_run block
  unfolding match_block emit_added_corpus
  match_block-emit_added_corpus same no_nul =
      match_loop-emit_loop corpus file hash block no_nul idx.normalized (length block)
        (match_runs run idx corpus keys_of file hash min_run content) 0
      ∙ ap
          (λ (runs : List Run).
            emit_loop corpus file hash block idx.normalized (length block) runs 0)
          (match_runs-block_runs same)
      ∙ elim (Bool-cases (is_empty block)) [
        | inl e ↦ rw (emit_added_corpus, e) (empty_block corpus file hash idx.normalized _ block e)
        | inr e ↦ rw (emit_added_corpus, e) refl
      ]

  none_first :
      (b f : ℕ) → match_equal run idx corpus keys_of file hash min_run content b f 0 ≡ false
  unfolding match_equal
  none_first b f = elim (Bool-cases idx.normalized) [
    | inl e ↦ rw (match_equal, e) (line_is-zero keys_of f _)
    | inr e ↦ rw (match_equal, e) (line_is-zero corpus f _)
  ]

  literal_lines-sub :
      (size covered : ℕ)
      → size < 2 ^ 64
      → covered ≤ size
      → literal_lines size covered ≡ size - covered
  unfolding literal_lines
  literal_lines-sub size covered fits le = omega (arith, fits, le)

  -- The loops end. The lines that are written are a line for each reference and the literal lines of
  -- the summary, whose number does not wrap, since no more lines are covered than there are.
  pub match_block-literal_lines :
      HasWords idx
      → length (match_keys run idx corpus keys_of file hash min_run content) ≡ length block
      → length block < 2 ^ 64
      → (t : Tally) × (match_block run idx corpus keys_of file hash min_run content ≡ some t)
        × (t.covered ≤ length block)
        × (t.refs ≤ t.covered)
        × (length t.written ≡ literal_lines (length block) t.covered + t.refs)
  unfolding match_block match_runs
  match_block-literal_lines words sized fits =
      let keys = match_keys run idx corpus keys_of file hash min_run content in
      let equal_lines = match_equal run idx corpus keys_of file hash min_run content in
      let runs = match_runs run idx corpus keys_of file hash min_run content in
      let (accepted, chain) =
        factorize_lem keys min_run (find_postings idx) equal_lines none_first words in
      let whole : length block - 0 ≡ length block = omega arith in
      let counts = rw whole at (
        match_loop-Counts corpus file hash block idx.normalized (length block) runs 0 (omega arith)
          (omega arith)
          (All-map (λ r. IsRun equal_lines (length keys) r × (min_run ≤ run_size r))
            (IsInside corpus file hash block) runs
            (λ r (h, _). (h.nonempty, omega (arith, h.bound, sized))) accepted)
          (All-always (λ r. 0 ≤ r.block_begin) runs λ r. omega arith) chain) in
      (
        counts.tally,
        counts.returns,
        counts.bound,
        counts.each_covers,
        (omega (
          arith,
          counts.sum,
          counts.bound,
          literal_lines-sub (length block) counts.tally.covered fits counts.bound,
        )),
      )
