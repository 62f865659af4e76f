-- ===== src/Generator/Added/Lines.antt =====
-- What holds of each line of the block and of each reference holds of each line that is written.
use phpatcher.Base.Options.{◌>>=◌, bind-eq-some}
use phpatcher.Base.{
  ltb, ◌==◌, if◌then◌else◌, Option-cases, Bytes, length, drop, All, All-append, All-drop, All-take,
  ℕ, zero, suc, ◌+◌, ◌-◌, Bool, true, false, not, List, [], ◌∷◌, inl, inr, Option, none, some, ◌≡◌,
  refl,
}
use phpatcher.Factorize.{Run, run_size}
use phpatcher.Generator.{Corpus, corpus_line, trim_pad_for, emit_ref}
use phpatcher.Generator.Added.{
  next_line, line_before, at, line_is, then_lines, ref_or_literals, exact_end, rewrapped_line,
  run_loop, emit_run, emit_loop,
}
use phpatcher.Indexer.Files.{found}

module _ (P : Bytes → Type 0) (corpus : Corpus) (file : ℕ → Bytes) (hash : Bool)
    (block : List Bytes) (empty_line : P []) (lines : All P block)
    (refs : (file_id begin end : ℕ) (pads : Option (Bytes × Bytes)) (line : Bytes)
      → emit_ref corpus file hash file_id begin end pads ≡ some line
      → P line) where
  abbrev pub EachWritten : Option (List Bytes) → Type 0
  EachWritten none = Unit
  EachWritten (some written) = All P written

  EachWritten-if :
      (test : Bool) (x y : Option (List Bytes))
      → EachWritten x
      → EachWritten y
      → EachWritten (if test then x else y)
  EachWritten-if true x y h k = h
  EachWritten-if false x y h k = k

  EachWritten-then :
      (front back : Option (List Bytes))
      → EachWritten front
      → EachWritten back
      → EachWritten (then_lines front back)
  unfolding then_lines
  EachWritten-then none back _ _ = tt
  EachWritten-then (some front) none _ _ = tt
  EachWritten-then (some front) (some back) h k = All-append P front back h k

  at-All : (xs : List Bytes) (i : ℕ) → All P xs → P (at xs i)
  at-All [] i _ = empty_line
  at-All (x ∷ xs) zero (h, _) = h
  at-All (x ∷ xs) (suc i) (_, hs) = at-All xs i hs

  ref_or_literals-All :
      (file_id c0 c1 b e : ℕ) → All P (ref_or_literals corpus file hash block file_id c0 c1 b e)
  unfolding ref_or_literals
  ref_or_literals-All file_id c0 c1 b e =
      elim (Option-cases (emit_ref corpus file hash file_id c0 c1 none)) [
        | inl missing ↦
            rw (ref_or_literals, missing)
              (All-take P (e - b) (drop b block) (All-drop P b block lines))
        | inr (line, found) ↦ rw (ref_or_literals, found) (refs file_id c0 c1 none line found, tt)
      ]

  or_literal :
      (text : Option Bytes) (b : ℕ)
      → ((line : Bytes) → text ≡ some line → P line)
      → P (elim text [ none ↦ at block b | some line ↦ line ])
  or_literal none b h = at-All block b lines
  or_literal (some line) b h = h line refl

  rewrapped_line-P : (file_id b c : ℕ) → P (rewrapped_line corpus file hash block file_id b c)
  unfolding rewrapped_line
  rewrapped_line-P file_id b c =
      let reference : Bytes × Bytes → Option Bytes =
        λ pads. emit_ref corpus file hash file_id c c (some pads) in
      let from_line : Bytes → Option Bytes = λ cl. trim_pad_for cl (at block b) >>= reference in
      or_literal (corpus_line corpus file_id c >>= from_line) b λ line e.
        let (cl, _, inner) = bind-eq-some (corpus_line corpus file_id c) from_line e in
        let (pads, _, found) = bind-eq-some (trim_pad_for cl (at block b)) reference inner in
        refs file_id c c (some pads) line found

  run_loop-EachWritten :
      (fuel file_id end b c : ℕ)
      → EachWritten (run_loop corpus file hash block fuel file_id end b c)
  unfolding run_loop
  run_loop-EachWritten zero file_id end b c = EachWritten-if (ltb b end) none (some []) tt tt
  run_loop-EachWritten (suc fuel) file_id end b c =
      let (b', c') =
        exact_end corpus file hash block file_id (end - (b + 1)) (b + 1) (next_line c) in
      EachWritten-if (not (ltb b end)) _ _ tt (
        EachWritten-if (line_is corpus file_id c (at block b)) _ _
          (EachWritten-then _ _ (ref_or_literals-All file_id c (line_before c') b b')
            (run_loop-EachWritten fuel file_id end b' c'))
          (EachWritten-then _ _ (rewrapped_line-P file_id b c, tt)
            (run_loop-EachWritten fuel file_id end (b + 1) (next_line c))))

  emit_run-EachWritten :
      (normalized : Bool) (r : Run) → EachWritten (emit_run corpus file hash block normalized r)
  unfolding emit_run
  emit_run-EachWritten true r =
      run_loop-EachWritten (run_size r) r.file_id r.block_end r.block_begin r.corpus_begin
  emit_run-EachWritten false r =
      ref_or_literals-All r.file_id r.corpus_begin r.corpus_end r.block_begin r.block_end

  pub emit_loop-EachWritten :
      (normalized : Bool) (fuel : ℕ) (runs : List Run) (pos : ℕ)
      → EachWritten (emit_loop corpus file hash block normalized fuel runs pos)
  unfolding emit_loop
  emit_loop-EachWritten normalized zero runs pos =
      EachWritten-if (ltb pos (length block)) none (some []) tt tt
  emit_loop-EachWritten normalized (suc fuel) [] pos =
      EachWritten-if (ltb pos (length block)) _ _
        (EachWritten-then _ _ (at-All block pos lines, tt)
          (emit_loop-EachWritten normalized fuel [] (pos + 1)))
        tt
  emit_loop-EachWritten normalized (suc fuel) (r ∷ runs) pos =
      EachWritten-if (not (ltb pos (length block))) _ _ tt (
        EachWritten-if (r.block_begin == pos) _ _
          (EachWritten-then _ _ (emit_run-EachWritten normalized r)
            (emit_loop-EachWritten normalized fuel runs r.block_end))
          (EachWritten-then _ _ (at-All block pos lines, tt)
            (emit_loop-EachWritten normalized fuel (r ∷ runs) (pos + 1))))
