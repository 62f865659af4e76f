-- ===== src/Matcher/Written.antt =====
-- tools/matcher.cpp against `emit_added_corpus` of tools/changes.cpp: the lines that both write.
use phpatcher.Base.Options.{◌>>=◌}
use phpatcher.Base.{
  ltb, ◌==◌, if◌then◌else◌, Option-cases, Bytes, length, drop, All, All-drop, All-take, ℕ, zero,
  suc, ◌+◌, ◌-◌, Bool, true, false, not, List, [], ◌∷◌, map, ◌≢◌, inl, inr, Option, none, some, ◌≡◌,
  refl, ap, ◌∙◌, arith,
}
use phpatcher.Factorize.{Run, run_size}
use phpatcher.Generator.{Corpus, corpus_line, trim_pad_for, emit_ref}
use phpatcher.Generator.Added.{
  next_line, line_before, at, line_is, then_lines, ref_or_literals, exact_end, rewrapped_line,
  run_loop, emit_run, emit_loop,
}
use phpatcher.Indexer.Files.{found}
use phpatcher.Matcher.{
  printed, Tally, then_tally, one_ref, plain_lines, match_range, match_line, match_run_loop,
  match_run, match_loop,
}

-- A line that is printed as it is.
abbrev pub HasNoNul : Bytes → Type 0
HasNoNul = All (λ c. c ≢ 0)

printed-HasNoNul : (l : Bytes) → HasNoNul l → printed l ≡ l
unfolding printed
printed-HasNoNul [] _ = refl
printed-HasNoNul (c ∷ s) (h, hs) =
    let other : (c == 0) ≡ false = ground (arith, h) in rw (other, printed-HasNoNul s hs) refl

map-printed : (ls : List Bytes) → All HasNoNul ls → map printed ls ≡ ls
map-printed [] _ = refl
map-printed (l ∷ ls) (h, hs) = rw (printed-HasNoNul l h, map-printed ls hs) refl

printed-at : (xs : List Bytes) (i : ℕ) → All HasNoNul xs → printed (at xs i) ≡ at xs i
unfolding printed
printed-at [] i _ = refl
printed-at (x ∷ xs) zero (h, _) = printed-HasNoNul x h
printed-at (x ∷ xs) (suc i) (_, hs) = printed-at xs i hs

-- The lines of a tally.
abbrev pub written_of : Option Tally → Option (List Bytes)
written_of none = none
written_of (some t) = some (t.written)

written_of-then :
    (x y : Option Tally) → written_of (then_tally x y) ≡ then_lines (written_of x) (written_of y)
unfolding then_tally then_lines
written_of-then none y = refl
written_of-then (some x) none = refl
written_of-then (some x) (some y) = refl

written_of-if :
    (test : Bool) (x y : Option Tally) {u v : Option (List Bytes)}
    → written_of x ≡ u
    → written_of y ≡ v
    → written_of (if test then x else y) ≡ (if test then u else v)
written_of-if true x y h k = h
written_of-if false x y h k = k

module _ (corpus : Corpus) (file : ℕ → Bytes) (hash : Bool) (block : List Bytes)
    (no_nul : All HasNoNul block) where
  then_same :
      (x y : Option Tally) {u v : Option (List Bytes)}
      → written_of x ≡ u
      → written_of y ≡ v
      → written_of (then_tally x y) ≡ then_lines u v
  then_same x y h k = written_of-then x y ∙ rw (h, k) refl

  match_range-written :
      (file_id c0 c1 b e : ℕ)
      → (match_range corpus file hash block file_id c0 c1 b e).written
        ≡ ref_or_literals corpus file hash block file_id c0 c1 b e
  unfolding match_range ref_or_literals
  match_range-written file_id c0 c1 b e =
      elim (Option-cases (emit_ref corpus file hash file_id c0 c1 none)) [
        | inl missing ↦
            rw (match_range, ref_or_literals, missing)
              (map-printed _
                (All-take HasNoNul (e - b) (drop b block) (All-drop HasNoNul b block no_nul)))
        | inr (line, found) ↦ rw (match_range, ref_or_literals, found) refl
      ]

  line_written :
      (padded : Option Bytes) (x : Bytes)
      → printed x ≡ x
      → (elim padded as (λ _. Tally) [
        | none ↦ plain_lines (x ∷ [])
        | some line ↦ one_ref 1 line
      ]).written
        ≡ (elim padded [ none ↦ x | some line ↦ line ]) ∷ []
  line_written none x h = rw h refl
  line_written (some line) x h = refl

  match_line-written :
      (file_id b c : ℕ)
      → (match_line corpus file hash block file_id b c).written
        ≡ rewrapped_line corpus file hash block file_id b c ∷ []
  unfolding match_line rewrapped_line
  match_line-written file_id b c =
      let reference : Bytes × Bytes → Option Bytes =
        λ pads. emit_ref corpus file hash file_id c c (some pads) in
      let from_line : Bytes → Option Bytes = λ cl. trim_pad_for cl (at block b) >>= reference in
      line_written (corpus_line corpus file_id c >>= from_line) (at block b)
        (printed-at block b no_nul)

  match_run_loop-run_loop :
      (fuel file_id end b c : ℕ)
      → written_of (match_run_loop corpus file hash block fuel file_id end b c)
        ≡ run_loop corpus file hash block fuel file_id end b c
  unfolding match_run_loop run_loop
  match_run_loop-run_loop zero file_id end b c = written_of-if (ltb b end) _ _ refl refl
  match_run_loop-run_loop (suc fuel) file_id end b c =
      let (b', c') =
        exact_end corpus file hash block file_id (end - (b + 1)) (b + 1) (next_line c) in
      written_of-if (not (ltb b end)) _ _ refl (
        written_of-if (line_is corpus file_id c (at block b)) _ _
          (then_same (some (match_range corpus file hash block file_id c (line_before c') b b'))
            (match_run_loop corpus file hash block fuel file_id end b' c')
            (ap (λ (t : List Bytes). some t) (match_range-written file_id c (line_before c') b b'))
            (match_run_loop-run_loop fuel file_id end b' c'))
          (then_same (some (match_line corpus file hash block file_id b c))
            (match_run_loop corpus file hash block fuel file_id end (b + 1) (next_line c))
            (ap (λ (t : List Bytes). some t) (match_line-written file_id b c))
            (match_run_loop-run_loop fuel file_id end (b + 1) (next_line c))))

  match_run-emit_run :
      (normalized : Bool) (r : Run)
      → written_of (match_run corpus file hash block normalized r)
        ≡ emit_run corpus file hash block normalized r
  unfolding match_run emit_run
  match_run-emit_run true r =
      match_run_loop-run_loop (run_size r) r.file_id r.block_end r.block_begin r.corpus_begin
  match_run-emit_run false r =
      ap (λ (t : List Bytes). some t)
        (match_range-written r.file_id r.corpus_begin r.corpus_end r.block_begin r.block_end)

  one_literal :
      (pos : ℕ) → written_of (some (plain_lines (at block pos ∷ []))) ≡ some (at block pos ∷ [])
  one_literal pos = rw (printed-at block pos no_nul) refl

  pub match_loop-emit_loop :
      (normalized : Bool) (fuel : ℕ) (runs : List Run) (pos : ℕ)
      → written_of (match_loop corpus file hash block normalized fuel runs pos)
        ≡ emit_loop corpus file hash block normalized fuel runs pos
  unfolding match_loop emit_loop
  match_loop-emit_loop normalized zero runs pos =
      written_of-if (ltb pos (length block)) _ _ refl refl
  match_loop-emit_loop normalized (suc fuel) [] pos =
      written_of-if (ltb pos (length block)) _ _
        (then_same (some (plain_lines (at block pos ∷ [])))
          (match_loop corpus file hash block normalized fuel [] (pos + 1)) (one_literal pos)
          (match_loop-emit_loop normalized fuel [] (pos + 1)))
        refl
  match_loop-emit_loop normalized (suc fuel) (r ∷ runs) pos =
      written_of-if (not (ltb pos (length block))) _ _ refl (
        written_of-if (r.block_begin == pos) _ _
          (then_same (match_run corpus file hash block normalized r)
            (match_loop corpus file hash block normalized fuel runs r.block_end)
            (match_run-emit_run normalized r)
            (match_loop-emit_loop normalized fuel runs r.block_end))
          (then_same (some (plain_lines (at block pos ∷ [])))
            (match_loop corpus file hash block normalized fuel (r ∷ runs) (pos + 1))
            (one_literal pos) (match_loop-emit_loop normalized fuel (r ∷ runs) (pos + 1))))
