-- ===== src/Generator/Added.antt =====
-- tools/changes.cpp, lines 218 to 236 and 431 to 520: the added lines, factorized against the corpus.
-- What is written is a list of lines, each with a newline behind it. `normalizer_->run` is a parameter:
-- the lines that Normalizer makes of a response. `keys_of` is `Corpus::key`: the map of loaded files
-- holds the keys of a file as it holds its lines.
pub mod Reading
pub mod Lines
pub mod BlockLines
pub mod Walk
pub mod Ranges
pub mod Rewrapped
pub mod Blocks
use phpatcher.Base.Options.{◌>>=◌}
use phpatcher.Base.{
  ltb, ◌==◌, if◌then◌else◌, Bytes, codes, equal, length, take, drop, get_elem?, is_empty, ℕ, zero,
  suc, ◌+◌, ◌-◌, ◌%◌, ◌^◌, Bool, true, false, not, List, [], ◌∷◌, ◌++◌, map, Option, none, some,
}
use phpatcher.Factorize.{Run, run_size, factorize}
use phpatcher.Generator.{Corpus, corpus_line, trim, trim_pad_for, emit_ref}
use phpatcher.IndexFile.{Loaded, find_postings}
use phpatcher.Normalizer.{NormLine}
use phpatcher.Text.{newline, after_prefix}
use phpatcher.Text.Lines.{terminated}

-- `++c` and `c - 1` on uint32_t.
abbrev pub next_line : ℕ → ℕ
next_line c = (c + 1) % 2 ^ 32

abbrev pub line_before : ℕ → ℕ
line_before c = (c + 2 ^ 32 - 1) % 2 ^ 32

-- `v[i]`, within its bounds.
abbrev pub at : List Bytes → ℕ → Bytes
at xs i = elim (get_elem? xs i) [ none ↦ [] | some x ↦ x ]

keys_from : List NormLine → List Bytes
keys_from [] = []
keys_from (l ∷ lines) = l.key ∷ keys_from lines

starts_with_tag : Bytes → Bool
starts_with_tag s = elim (after_prefix (codes "<?") s) [ none ↦ false | some _ ↦ true ]

-- Without an open tag the block is wrapped, and the key of the line in front of it is left out.
unfoldable pub normalize_block_keys : (Bytes → List NormLine) → Bytes → List Bytes
unfolding keys_from starts_with_tag after_prefix
normalize_block_keys run content =
    if starts_with_tag content
    then keys_from (run content)
    else drop 1 (keys_from (run (codes "<?php" ++ newline ∷ content)))

-- Whether the line `c` of a file is there and is `x`.
unfoldable pub line_is : Corpus → ℕ → ℕ → Bytes → Bool
line_is corpus file_id c x = elim (corpus_line corpus file_id c) [
  | none ↦ false
  | some l ↦ equal l x
]

-- What is written, and then the rest.
unfoldable pub then_lines : Option (List Bytes) → Option (List Bytes) → Option (List Bytes)
then_lines (some front) (some back) = some (front ++ back)
then_lines _ _ = none

module _ (corpus : Corpus) (file : ℕ → Bytes) (hash : Bool) (block : List Bytes) where
  -- `out << block[k]` for `k` from `b` to `e`.
  abbrev pub literals : ℕ → ℕ → List Bytes
  literals b e = take (e - b) (drop b block)

  -- A reference, or the lines themselves where there is none.
  unfoldable pub ref_or_literals : ℕ → ℕ → ℕ → ℕ → ℕ → List Bytes
  ref_or_literals file_id c0 c1 b e = elim (emit_ref corpus file hash file_id c0 c1 none) [
    | none ↦ literals b e
    | some line ↦ line ∷ []
  ]

  -- The do-while loop, with `left` lines of the run from `b` on.
  unfoldable pub exact_end : ℕ → ℕ → ℕ → ℕ → ℕ × ℕ
  exact_end file_id zero b c = (b, c)
  exact_end file_id (suc left) b c =
      let further = exact_end file_id left (b + 1) (next_line c) in
      if line_is corpus file_id c (at block b) then further else (b, c)

  -- A line that is not the same byte for byte.
  unfoldable pub rewrapped_line : ℕ → ℕ → ℕ → Bytes
  rewrapped_line file_id b c =
      let padded = (do
        cl ← corpus_line corpus file_id c
        pads ← trim_pad_for cl (at block b)
        emit_ref corpus file hash file_id c c (some pads)) in
      elim padded [ none ↦ at block b | some line ↦ line ]

  -- The loop over a run of a normalized index; `none` where the fuel runs out.
  unfoldable pub run_loop : ℕ → ℕ → ℕ → ℕ → ℕ → Option (List Bytes)
  run_loop zero file_id end b c = if ltb b end then none else some []
  run_loop (suc fuel) file_id end b c =
      let (b', c') = exact_end file_id (end - (b + 1)) (b + 1) (next_line c) in
      let behind = run_loop fuel file_id end b' c' in
      let below = run_loop fuel file_id end (b + 1) (next_line c) in
      if not (ltb b end)
      then some []
      else if line_is corpus file_id c (at block b)
      then then_lines (some (ref_or_literals file_id c (line_before c') b b')) behind
      else then_lines (some (rewrapped_line file_id b c ∷ [])) below

  -- A run of either kind of index.
  unfoldable pub emit_run : Bool → Run → Option (List Bytes)
  emit_run normalized r =
      if normalized
      then run_loop (run_size r) r.file_id r.block_end r.block_begin r.corpus_begin
      else some (ref_or_literals r.file_id r.corpus_begin r.corpus_end r.block_begin r.block_end)

  -- The loop over the block from `pos` on; `none` where the fuel runs out.
  unfoldable pub emit_loop : Bool → ℕ → List Run → ℕ → Option (List Bytes)
  emit_loop normalized zero runs pos = if ltb pos (length block) then none else some []
  emit_loop normalized (suc fuel) [] pos =
      let rest = emit_loop normalized fuel [] (pos + 1) in
      if ltb pos (length block) then then_lines (some (at block pos ∷ [])) rest else some []
  emit_loop normalized (suc fuel) (r ∷ runs) pos =
      let behind = emit_loop normalized fuel runs r.block_end in
      let rest = emit_loop normalized fuel (r ∷ runs) (pos + 1) in
      if not (ltb pos (length block))
      then some []
      else if r.block_begin == pos
      then then_lines (emit_run normalized r) behind
      else then_lines (some (at block pos ∷ [])) rest

module _ (run : Bytes → List NormLine) (idx : Loaded) (corpus keys_of : Corpus) (file : ℕ → Bytes)
    (hash : Bool) (min_run : ℕ) (added : List Bytes) where
  unfoldable pub block_keys : List Bytes
  block_keys =
      if idx.normalized then normalize_block_keys run (terminated added) else map trim added

  unfoldable pub lines_equal : ℕ → ℕ → ℕ → Bool
  lines_equal bpos file_id lineno =
      if idx.normalized
      then line_is keys_of file_id lineno (at block_keys bpos)
      else line_is corpus file_id lineno (at added bpos)

  unfoldable pub block_runs : List Run
  block_runs = factorize block_keys min_run (find_postings idx) lines_equal

  unfoldable pub emit_added_corpus : Option (List Bytes)
  emit_added_corpus =
      if is_empty added
      then some []
      else emit_loop corpus file hash added idx.normalized (length added) block_runs 0
