-- ===== src/Matcher/Counted.antt =====
-- The counts of tools/matcher.cpp: each line of the block is covered by a reference or written.
use phpatcher.Base.Options.{◌>>=◌}
use phpatcher.Base.{
  ltb, ◌==◌, if◌then◌else◌, ==_iff, Bool-cases, Option-cases, Bytes, length, drop, length-append,
  length-take, length-drop, All, ℕ, zero, suc, ◌+◌, ◌-◌, ◌≤◌, ◌<◌, Bool, true, false, not, List, [],
  ◌∷◌, ◌++◌, inl, inr, Option, none, some, ◌≡◌, refl, subst, arith,
}
use phpatcher.Factorize.{Run, run_size}
use phpatcher.Factorize.Sorted.{IsChain}
use phpatcher.Generator.{Corpus, corpus_line, trim_pad_for, emit_ref}
use phpatcher.Generator.Added.{next_line, line_before, at, line_is, literals, exact_end}
use phpatcher.Generator.Added.Blocks.{length-map}
use phpatcher.Generator.Added.Walk.{nonempty_ahead}
use phpatcher.Generator.Blocks.{inside}
use phpatcher.Indexer.Files.{found}
use phpatcher.Matcher.{
  printed, Tally, then_tally, one_ref, plain_lines, match_range, match_line, match_run_loop,
  match_run, match_loop,
}

-- A tally of `n` lines of the block.
pub record Counts (n : ℕ) (t : Option Tally) : Type 0 where
  pub tally : Tally
  pub returns : t ≡ some tally
  pub sum : length tally.written + tally.covered ≡ n + tally.refs
  pub bound : tally.covered ≤ n
  pub each_covers : tally.refs ≤ tally.covered

Counts-plain : (ls : List Bytes) → Counts (length ls) (some (plain_lines ls))
Counts-plain ls = record {
  tally = plain_lines ls;
  returns = refl;
  sum = omega (arith, length-map printed ls);
  bound = omega arith;
  each_covers = omega arith;
}

Counts-then :
    (m n k : ℕ) (x y : Option Tally)
    → m + n ≡ k
    → Counts m x
    → Counts n y
    → Counts k (then_tally x y)
unfolding then_tally
Counts-then m n k x y whole h g = record {
  tally = record {
    written = h.tally.written ++ g.tally.written;
    covered = h.tally.covered + g.tally.covered;
    refs = h.tally.refs + g.tally.refs;
  };
  returns = rw (h.returns, g.returns) refl;
  sum = omega (arith, length-append h.tally.written g.tally.written, h.sum, g.sum, whole);
  bound = omega (arith, h.bound, g.bound, whole);
  each_covers = omega (arith, h.each_covers, g.each_covers);
}

Counts-if :
    (test : Bool) {n : ℕ} {x y : Option Tally}
    → (test ≡ true → Counts n x)
    → (test ≡ false → Counts n y)
    → Counts n (if test then x else y)
Counts-if true h k = h refl
Counts-if false h k = k refl

module _ (corpus : Corpus) (file : ℕ → Bytes) (hash : Bool) (block : List Bytes) where
  literals-length :
      (b e : ℕ) → e ≤ length block → length (literals corpus file hash block b e) ≡ e - b
  literals-length b e h = omega (arith, length-take (e - b) (drop b block), length-drop b block)

  match_range-Counts :
      (file_id c0 c1 b e : ℕ)
      → b < e
      → e ≤ length block
      → Counts (e - b) (some (match_range corpus file hash block file_id c0 c1 b e))
  unfolding match_range
  match_range-Counts file_id c0 c1 b e lt le =
      elim (Option-cases (emit_ref corpus file hash file_id c0 c1 none)) [
        | inl missing ↦
            rw (match_range, missing)
              (subst (λ n. Counts n (some (plain_lines (literals corpus file hash block b e))))
                (literals-length b e le) (Counts-plain (literals corpus file hash block b e)))
        | inr (line, found) ↦
            rw (match_range, found)
              (record {
                tally = one_ref (e - b) line;
                returns = refl;
                sum = omega arith;
                bound = omega arith;
                each_covers = omega arith;
              })
      ]

  kept_or_covered :
      (padded : Option Bytes) (x : Bytes)
      → Counts 1 (
          some (elim padded as (λ _. Tally) [
            | none ↦ plain_lines (x ∷ [])
            | some line ↦ one_ref 1 line
          ]))
  kept_or_covered none x = Counts-plain (x ∷ [])
  kept_or_covered (some line) x = record {
    tally = one_ref 1 line;
    returns = refl;
    sum = omega arith;
    bound = omega arith;
    each_covers = omega arith;
  }

  match_line-Counts :
      (file_id b c : ℕ) → Counts 1 (some (match_line corpus file hash block file_id b c))
  unfolding match_line
  match_line-Counts file_id b c =
      let reference : Bytes × Bytes → Option Bytes =
        λ pads. emit_ref corpus file hash file_id c c (some pads) in
      let from_line : Bytes → Option Bytes = λ cl. trim_pad_for cl (at block b) >>= reference in
      kept_or_covered (corpus_line corpus file_id c >>= from_line) (at block b)

  exact_end-bounds :
      (file_id left b c : ℕ)
      → let p = exact_end corpus file hash block file_id left b c in (b ≤ p.0) × (p.0 ≤ b + left)
  unfolding exact_end
  exact_end-bounds file_id zero b c = (omega arith, omega arith)
  exact_end-bounds file_id (suc left) b c =
      let (low, high) = exact_end-bounds file_id left (b + 1) (next_line c) in
      elim (Bool-cases (line_is corpus file_id c (at block b))) [
        | inl e ↦ rw e (omega arith, omega arith)
        | inr e ↦ rw e (omega arith, omega arith)
      ]

  match_run_loop-Counts :
      (fuel file_id end b c : ℕ)
      → end - b ≤ fuel
      → b ≤ end
      → end ≤ length block
      → Counts (end - b) (match_run_loop corpus file hash block fuel file_id end b c)
  unfolding match_run_loop
  match_run_loop-Counts zero file_id end b c enough le bound =
      let done : ltb b end ≡ false = ground arith in
      let none_left : end - b ≡ 0 = omega arith in rw (done, none_left) (Counts-plain [])
  match_run_loop-Counts (suc fuel) file_id end b c enough le bound =
      let q = exact_end corpus file hash block file_id (end - (b + 1)) (b + 1) (next_line c) in
      Counts-if (not (ltb b end))
        (λ stop. let none_left : end - b ≡ 0 = ground arith in rw none_left (Counts-plain []))
        λ more.
          let lt : b < end = ground arith in
          let (low, high) = exact_end-bounds file_id (end - (b + 1)) (b + 1) (next_line c) in
          Counts-if (line_is corpus file_id c (at block b))
            (λ _.
              Counts-then (q.0 - b) (end - q.0) (end - b) _ _ (omega (arith, low, high, lt))
                (match_range-Counts file_id c (line_before q.1) b q.0 (omega (arith, low))
                  (omega (arith, high, lt, bound)))
                (match_run_loop-Counts fuel file_id end q.0 q.1 (omega (arith, low, enough))
                  (omega (arith, high, lt)) bound))
            λ _.
              Counts-then 1 (end - (b + 1)) (end - b) _ _ (omega (arith, lt))
                (match_line-Counts file_id b c)
                (match_run_loop-Counts fuel file_id end (b + 1) (next_line c)
                  (omega (arith, enough)) (omega (arith, lt)) bound)

  -- A run within the block.
  abbrev pub IsInside : Run → Type 0
  IsInside r = (r.block_begin < r.block_end) × (r.block_end ≤ length block)

  match_run-Counts :
      (normalized : Bool) (r : Run)
      → IsInside r
      → Counts (r.block_end - r.block_begin) (match_run corpus file hash block normalized r)
  unfolding match_run
  match_run-Counts true r (lt, le) =
      match_run_loop-Counts (run_size r) r.file_id r.block_end r.block_begin r.corpus_begin
        (unfold run_size in omega arith) (omega arith) le
  match_run-Counts false r (lt, le) =
      match_range-Counts r.file_id r.corpus_begin r.corpus_end r.block_begin r.block_end lt le

  -- The rest of the block from `pos` on, with the runs that are still to come.
  pub match_loop-Counts :
      (normalized : Bool) (fuel : ℕ) (runs : List Run) (pos : ℕ)
      → length block - pos ≤ fuel
      → pos ≤ length block
      → All IsInside runs
      → All (λ r. pos ≤ r.block_begin) runs
      → IsChain runs
      → Counts (length block - pos) (match_loop corpus file hash block normalized fuel runs pos)
  unfolding match_loop
  match_loop-Counts normalized zero runs pos enough le _ _ _ =
      let done : ltb pos (length block) ≡ false = ground arith in
      let none_left : length block - pos ≡ 0 = omega arith in rw (done, none_left) (Counts-plain [])
  match_loop-Counts normalized (suc fuel) [] pos enough le _ _ _ =
      Counts-if (ltb pos (length block))
        (λ more.
          Counts-then 1 (length block - (pos + 1)) (length block - pos) _ _ (ground arith)
            (Counts-plain (at block pos ∷ []))
            (match_loop-Counts normalized fuel [] (pos + 1) (omega arith) (ground arith) tt tt tt))
        λ stop.
          let none_left : length block - pos ≡ 0 = ground arith in rw none_left (Counts-plain [])
  match_loop-Counts normalized (suc fuel) (r ∷ runs) pos enough le (h, inside) (here, ahead) chain =
      Counts-if (not (ltb pos (length block)))
        (λ stop.
          let none_left : length block - pos ≡ 0 = ground arith in rw none_left (Counts-plain []))
        λ more.
          Counts-if (r.block_begin == pos)
            (λ at_run.
              Counts-then (r.block_end - r.block_begin) (length block - r.block_end)
                (length block - pos) _ _ (ground (arith, h)) (match_run-Counts normalized r h)
                (match_loop-Counts normalized fuel runs r.block_end
                  (omega (arith, h.0, here, enough)) h.1 inside chain.0 chain.1))
            λ before.
              Counts-then 1 (length block - (pos + 1)) (length block - pos) _ _ (ground arith)
                (Counts-plain (at block pos ∷ []))
                (match_loop-Counts normalized fuel (r ∷ runs) (pos + 1) (omega arith) (ground arith)
                  (h, inside)
                  (nonempty_ahead r runs pos here
                    (λ same_pos. cc (before, (==_iff r.block_begin pos).1 same_pos)) h.0 chain.0)
                  chain)
