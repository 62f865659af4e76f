-- ===== src/Generator/Added/Ranges.antt =====
-- References to ranges of lines that the corpus has.
use phpatcher.Base.{
  Option-cases, Bytes, equal_iff, length, take, drop, get_elem?, ok, ℕ, zero, suc, ◌+◌, ◌-◌, ◌^◌,
  ◌≤◌, ◌<◌, Bool, true, List, [], ◌∷◌, map, inl, inr, Option, none, some, ◌≡◌, refl, sym, ap, ◌∙◌,
  arith,
}
use phpatcher.Apply.{RefResolver, build_input}
use phpatcher.Directive.{parse_ed_input_piece}
use phpatcher.Generator.{Corpus, corpus_line, emit_ref}
use phpatcher.Generator.Added.{at, line_is, literals, ref_or_literals}
use phpatcher.Generator.Added.Reading.{AllPairs-same, Emits}
use phpatcher.Generator.Added.Walk.{drop-at}
use phpatcher.Generator.Resolution.{wrapped, emit_ref-build_input}
use phpatcher.Indexer.Files.{found}
use phpatcher.Number.{int64_max}
use phpatcher.Resolver.{Disk, split_corpus_lines, full_path, run_of, run_length, resolve_ref}

-- What the patcher reads is what the corpus holds, and line numbers and lengths fit their types.
pub record IsServed (disk : Disk) (base_dir path : Bytes) (lines : List Bytes) : Type 0 where
  pub content : Bytes
  pub readable : disk (full_path base_dir path) ≡ some content
  pub split : lines ≡ split_corpus_lines content
  pub small : length lines + 1 < 2 ^ 32
  pub fits : run_length lines ≤ int64_max

at-get_elem? :
    (xs : List Bytes) (i : ℕ) (x : Bytes)
    → get_elem? xs i ≡ some x
    → (i < length xs) × (at xs i ≡ x)
at-get_elem? [] i x e = cc
at-get_elem? (y ∷ xs) zero x e = (omega arith, cc)
at-get_elem? (y ∷ xs) (suc i) x e = let (lt, found) = at-get_elem? xs i x e in (omega arith, found)

pub corpus_line-inv :
    (corpus : Corpus) (f c : ℕ) (x : Bytes)
    → corpus_line corpus f c ≡ some x
    → (lines : List Bytes) × (corpus f ≡ some lines)
      × (1 ≤ c)
      × (c ≤ length lines)
      × (at lines (c - 1) ≡ x)
unfolding corpus_line
corpus_line-inv corpus f zero x e = elim (Option-cases (corpus f)) [
  | inl none_there ↦ cc (rw (corpus_line, none_there) at e)
  | inr (lines, there) ↦ cc (rw (corpus_line, there) at e)
]
corpus_line-inv corpus f (suc i) x e = elim (Option-cases (corpus f)) [
  | inl none_there ↦ cc (rw (corpus_line, none_there) at e)
  | inr (lines, there) ↦
      let (lt, found) = at-get_elem? lines i x (rw (corpus_line, there) at e) in
      let back : suc i - 1 ≡ i = omega arith in
      (lines, there, omega arith, omega arith, rw back found)
]

pub line_is-inv :
    (corpus : Corpus) (f c : ℕ) (x : Bytes)
    → line_is corpus f c x ≡ true
    → (lines : List Bytes) × (corpus f ≡ some lines)
      × (1 ≤ c)
      × (c ≤ length lines)
      × (at lines (c - 1) ≡ x)
unfolding line_is
line_is-inv corpus f c x e = elim (Option-cases (corpus_line corpus f c)) [
  | inl none_there ↦ cc (rw (line_is, none_there) at e)
  | inr (l, there) ↦
      corpus_line-inv corpus f c x (rw ((equal_iff l x).0 (rw (line_is, there) at e)) at there)
]

-- Slices that agree position by position.
slices-eq :
    (n i j : ℕ) (xs ys : List Bytes)
    → i + n ≤ length xs
    → j + n ≤ length ys
    → ((k : ℕ) → k < n → at xs (i + k) ≡ at ys (j + k))
    → take n (drop i xs) ≡ take n (drop j ys)
slices-eq zero i j xs ys _ _ _ = refl
slices-eq (suc n) i j xs ys hx hy same =
    let first : at xs i ≡ at ys j =
      let ei : i + 0 ≡ i = omega arith in
      let ej : j + 0 ≡ j = omega arith in rw (ei, ej) at (same 0 (omega arith)) in
    rw (drop-at i xs (omega arith), drop-at j ys (omega arith), first)
      (ap (◌∷◌ (at ys j)) (
        slices-eq n (i + 1) (j + 1) xs ys (omega arith) (omega arith) λ k lt.
          let ei : i + suc k ≡ i + 1 + k = omega arith in
          let ej : j + suc k ≡ j + 1 + k = omega arith in
          rw (ei, ej) at (same (suc k) (omega arith))))

run_length-drop : (n : ℕ) (lines : List Bytes) → run_length (drop n lines) ≤ run_length lines
run_length-drop zero lines = omega arith
run_length-drop (suc n) [] = omega arith
run_length-drop (suc n) (l ∷ lines) = omega (arith, run_length-drop n lines)

run_length-take : (n : ℕ) (lines : List Bytes) → run_length (take n lines) ≤ run_length lines
run_length-take zero lines = omega arith
run_length-take (suc n) [] = omega arith
run_length-take (suc n) (l ∷ lines) = omega (arith, run_length-take n lines)

map-none : (xs : List Bytes) → map (wrapped none) xs ≡ xs
map-none [] = refl
map-none (x ∷ xs) = ap (◌∷◌ x) (map-none xs)

module _ (disk : Disk) (base_dir : Bytes) (corpus : Corpus) (file : ℕ → Bytes) (hash : Bool)
    (served : (f : ℕ) (lines : List Bytes)
      → corpus f ≡ some lines
      → IsServed disk base_dir (file f) lines) where
  abbrev pub resolver : RefResolver
  resolver = some (resolve_ref disk base_dir)

  -- A reference to lines that the corpus has.
  pub emit_ref-run :
      (f begin end : ℕ) (pads : Option (Bytes × Bytes)) (lines : List Bytes)
      → corpus f ≡ some lines
      → 1 ≤ begin
      → begin ≤ end
      → end ≤ length lines
      → (line : Bytes) × (emit_ref corpus file hash f begin end pads ≡ some line)
        × (build_input resolver (parse_ed_input_piece line ∷ [])
            ≡ ok (map (wrapped pads) (run_of begin end lines)))
  emit_ref-run f begin end pads lines there first ordered within =
      let s = served f lines there in
      let count = end - (begin - 1) in
      let short : run_length (run_of begin end lines) ≤ int64_max = omega (
        arith,
        run_length-take count (drop (begin - 1) lines),
        run_length-drop (begin - 1) lines,
        s.fits,
      ) in
      rw (sym s.split) at (
        emit_ref-build_input disk base_dir corpus file hash f begin end pads s.content s.readable
          (there ∙ ap (λ (t : List Bytes). some t) s.split) first ordered (rw s.split at within)
          (omega (arith, s.small)) (rw s.split at short))

  module _ (L : Bytes → Bytes → Type 0) (same : (x : Bytes) → L x x) (block : List Bytes) where
    line_within :
        (lines : List Bytes) (f c : ℕ) (x : Bytes)
        → corpus f ≡ some lines
        → line_is corpus f c x ≡ true
        → (c ≤ length lines) × (at lines (c - 1) ≡ x)
    line_within lines f c x loaded there =
        let (lines', loaded', _, le, found) = line_is-inv corpus f c x there in
        let e : lines' ≡ lines = cc in (rw e at le, rw e at found)

    -- `count` lines of the block that the corpus has.
    pub range-Emits :
        (f c b count : ℕ)
        → 1 ≤ count
        → b + count ≤ length block
        → ((i : ℕ) → i < count → line_is corpus f (c + i) (at block (b + i)) ≡ true)
        → Emits resolver L
            (literals corpus file hash block b (b + count))
            (some (ref_or_literals corpus file hash block f c (c + count - 1) b (b + count)))
    unfolding ref_or_literals
    range-Emits f c b count some_lines within there =
        let c_0 : c + 0 ≡ c = omega arith in
        let (lines, loaded, first, _, _) =
          line_is-inv corpus f c _ (rw c_0 at (there 0 (omega arith))) in
        let each = λ (i : ℕ) (lt : i < count).
          line_within lines f (c + i) (at block (b + i)) loaded (there i lt) in
        let last : c + count - 1 ≤ length lines =
          let e : c + (count - 1) ≡ c + count - 1 = omega arith in
          rw e at (each (count - 1) (omega arith)).0 in
        let (line, written, reads) =
          emit_ref-run f c (c + count - 1) none lines loaded first (omega arith) last in
        let run : run_of c (c + count - 1) lines ≡ literals corpus file hash block b (b + count) =
          let e : c + count - 1 - (c - 1) ≡ count = omega arith in
          let g : b + count - b ≡ count = omega arith in
          rw (e, g)
            (slices-eq count (c - 1) b lines block (omega arith) within
              λ k lt. let k_eq : c - 1 + k ≡ c + k - 1 = omega arith in rw k_eq (each k lt).1) in
        record {
          written = line ∷ [];
          lines = literals corpus file hash block b (b + count);
          returns = rw (ref_or_literals, written) refl;
          reads = reads ∙ ap (λ (t : List Bytes). ok t) (map-none _ ∙ run);
          related = AllPairs-same L _ same;
        }
