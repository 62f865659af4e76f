-- ===== src/Matcher.antt =====
-- tools/matcher.cpp, lines 423 to 510: the block of lines as references and literals, with the counts
-- of the summary. `split_lines`, `normalize_block_keys`, `Index`, `Corpus`, `trim_pad_for` and
-- `emit_ref` (lines 96 to 370) are the code of tools/changes.cpp over again. `normalizer.run` is a
-- parameter, as in Generator/Added. A line is shorter than 2 ^ 31 bytes, since its length is cast to
-- int, and the path of a corpus file has no NUL byte, at which `%s` would stop.
pub mod Written
pub mod Counted
pub mod Summary
use phpatcher.Base.Options.{◌>>=◌}
use phpatcher.Base.{
  ltb, ◌==◌, if◌then◌else◌, Bytes, length, ℕ, zero, suc, ◌+◌, ◌-◌, ◌%◌, ◌^◌, Bool, not, List, [],
  ◌∷◌, ◌++◌, map, Option, none, some,
}
use phpatcher.Factorize.{Run, run_size, factorize}
use phpatcher.Generator.{Corpus, corpus_line, trim, trim_pad_for, emit_ref}
use phpatcher.Generator.Added.{
  next_line, line_before, at, normalize_block_keys, line_is, literals, exact_end,
}
use phpatcher.IndexFile.{Loaded, find_postings}
use phpatcher.Normalizer.{NormLine}
use phpatcher.Resolver.{split_corpus_lines}

-- `printf("%.*s")`, which stops at a NUL byte.
unfoldable pub printed : Bytes → Bytes
printed [] = []
printed (c ∷ s) = let rest = printed s in if c == 0 then [] else c ∷ rest

-- The lines on standard output, `covered_lines` and `emitted_refs`.
pub record Tally : Type 0 where
  pub written : List Bytes
  pub covered : ℕ
  pub refs : ℕ

unfoldable pub then_tally : Option Tally → Option Tally → Option Tally
then_tally (some x) (some y) = some (record {
  written = x.written ++ y.written;
  covered = x.covered + y.covered;
  refs = x.refs + y.refs;
})
then_tally _ _ = none

-- A reference that covers some lines, and lines as they are.
abbrev pub one_ref : ℕ → Bytes → Tally
one_ref count line = record { written = line ∷ []; covered = count; refs = 1 }

abbrev pub plain_lines : List Bytes → Tally
plain_lines ls = record { written = map printed ls; covered = 0; refs = 0 }

module _ (corpus : Corpus) (file : ℕ → Bytes) (hash : Bool) (block : List Bytes) where
  unfoldable pub match_range : ℕ → ℕ → ℕ → ℕ → ℕ → Tally
  match_range file_id c0 c1 b e = elim (emit_ref corpus file hash file_id c0 c1 none) [
    | none ↦ plain_lines (literals corpus file hash block b e)
    | some line ↦ one_ref (e - b) line
  ]

  -- A line that is not the same byte for byte.
  unfoldable pub match_line : ℕ → ℕ → ℕ → Tally
  match_line file_id b c =
      let padded = (do
        cl ← corpus_line corpus file_id c
        pads ← trim_pad_for cl (at block b)
        emit_ref corpus file hash file_id c c (some pads)) in
      elim padded [ none ↦ plain_lines (at block b ∷ []) | some line ↦ one_ref 1 line ]

  -- The loop over a run of a normalized index; `none` where the fuel runs out.
  unfoldable pub match_run_loop : ℕ → ℕ → ℕ → ℕ → ℕ → Option Tally
  match_run_loop zero file_id end b c = if ltb b end then none else some (plain_lines [])
  match_run_loop (suc fuel) file_id end b c =
      let (b', c') =
        exact_end corpus file hash block file_id (end - (b + 1)) (b + 1) (next_line c) in
      let behind = match_run_loop fuel file_id end b' c' in
      let below = match_run_loop fuel file_id end (b + 1) (next_line c) in
      if not (ltb b end)
      then some (plain_lines [])
      else if line_is corpus file_id c (at block b)
      then then_tally (some (match_range file_id c (line_before c') b b')) behind
      else then_tally (some (match_line file_id b c)) below

  -- A run of either kind of index.
  unfoldable pub match_run : Bool → Run → Option Tally
  match_run normalized r =
      if normalized
      then match_run_loop (run_size r) r.file_id r.block_end r.block_begin r.corpus_begin
      else some (match_range r.file_id r.corpus_begin r.corpus_end r.block_begin r.block_end)

  -- The loop over the block from `pos` on; `none` where the fuel runs out.
  unfoldable pub match_loop : Bool → ℕ → List Run → ℕ → Option Tally
  match_loop normalized zero runs pos =
      if ltb pos (length block) then none else some (plain_lines [])
  match_loop normalized (suc fuel) [] pos =
      let rest = match_loop normalized fuel [] (pos + 1) in
      if ltb pos (length block)
      then then_tally (some (plain_lines (at block pos ∷ []))) rest
      else some (plain_lines [])
  match_loop normalized (suc fuel) (r ∷ runs) pos =
      let behind = match_loop normalized fuel runs r.block_end in
      let rest = match_loop normalized fuel (r ∷ runs) (pos + 1) in
      if not (ltb pos (length block))
      then some (plain_lines [])
      else if r.block_begin == pos
      then then_tally (match_run normalized r) behind
      else then_tally (some (plain_lines (at block pos ∷ []))) rest

module _ (run : Bytes → List NormLine) (idx : Loaded) (corpus keys_of : Corpus) (file : ℕ → Bytes)
    (hash : Bool) (min_run : ℕ) (content : Bytes) where
  unfoldable pub match_keys : List Bytes
  match_keys =
      if idx.normalized
      then normalize_block_keys run content
      else map trim (split_corpus_lines content)

  unfoldable pub match_equal : ℕ → ℕ → ℕ → Bool
  match_equal bpos file_id lineno =
      if idx.normalized
      then line_is keys_of file_id lineno (at match_keys bpos)
      else line_is corpus file_id lineno (at (split_corpus_lines content) bpos)

  unfoldable pub match_runs : List Run
  match_runs = factorize match_keys min_run (find_postings idx) match_equal

  unfoldable pub match_block : Option Tally
  match_block =
      match_loop corpus file hash (split_corpus_lines content) idx.normalized
        (length (split_corpus_lines content)) match_runs 0

-- `literal_lines` of the summary, on size_t.
unfoldable pub literal_lines : ℕ → ℕ → ℕ
literal_lines size covered = (size + 2 ^ 64 - covered) % 2 ^ 64
