-- ===== src/Generator/Added/Rewrapped.antt =====
-- The loop over a run of a normalized index: lines that are the same byte for byte are referenced as
-- they are, the others between paddings.
use phpatcher.Base.{
  ltb, Bool-cases, Option-cases, Bytes, length, drop, drop-drop, take-take-drop, All, All-drop, ℕ,
  zero, suc, ◌+◌, ◌-◌, ◌^◌, ◌≤◌, ◌<◌, Bool, true, false, List, [], ◌∷◌, ◌++◌, ◌⊎◌, inl, inr, Option,
  some, ◌≡◌, refl, sym, subst, arith,
}
use phpatcher.Collector.Placed.{Plain}
use phpatcher.Generator.{Corpus, corpus_line, trim, trim_pad_for}
use phpatcher.Generator.Added.{
  next_line, line_before, at, line_is, then_lines, literals, ref_or_literals, exact_end,
  rewrapped_line, run_loop,
}
use phpatcher.Generator.Added.Ranges.{
  IsServed, corpus_line-inv, line_is-inv, resolver, emit_ref-run, range-Emits,
}
use phpatcher.Generator.Added.Reading.{Emits, Emits-then, Emits-nil, Emits-literals}
use phpatcher.Generator.Added.Walk.{drop-at}
use phpatcher.Generator.Paddings.{trim_pad_for_lem}
use phpatcher.Generator.Resolution.{wrapped}
use phpatcher.Indexer.Files.{found}
use phpatcher.Resolver.{Disk, run_of}

module _ (disk : Disk) (base_dir : Bytes) (corpus keys_of : Corpus) (file : ℕ → Bytes) (hash : Bool)
    (served : (f : ℕ) (lines : List Bytes)
      → corpus f ≡ some lines
      → IsServed disk base_dir (file f) lines)
    (small_keys : (f : ℕ) (keys : List Bytes) → keys_of f ≡ some keys → length keys + 1 < 2 ^ 32)
    (block keys : List Bytes) (plain : All Plain block) where
  -- `m` is put in for the line `x`: `x` itself, or a line of the corpus with the key that `x` has in
  -- the block, between the paddings that `x` has.
  abbrev pub Rewrapped : Bytes → Bytes → Type 0
  Rewrapped x m =
      (m ≡ x)
      ⊎ ((b : ℕ) × (f : ℕ) × (c : ℕ) × (cl : Bytes) × (pads : Bytes × Bytes) × (at block b ≡ x)
          × (line_is keys_of f c (at keys b) ≡ true)
          × (corpus_line corpus f c ≡ some cl)
          × (trim_pad_for cl x ≡ some pads)
          × (x ≡ pads.0 ++ (trim x ++ pads.1))
          × (m ≡ wrapped (some pads) cl))

  same : (x : Bytes) → Rewrapped x x
  same x = inl refl

  abbrev Writes : List Bytes → Option (List Bytes) → Type 0
  Writes = Emits (resolver disk base_dir corpus file hash served) Rewrapped

  -- The lines from `b` on have the keys of the corpus lines from `c` on.
  abbrev KeysMatch : ℕ → ℕ → ℕ → ℕ → Type 0
  KeysMatch f c b count = (i : ℕ) → i < count → line_is keys_of f (c + i) (at keys (b + i)) ≡ true

  next_line-small :
      (f c : ℕ) (x : Bytes)
      → line_is corpus f c x ≡ true ⊎ line_is keys_of f c x ≡ true
      → (next_line c ≡ c + 1) × (c + 1 < 2 ^ 32)
  next_line-small f c x (inl e) =
      let (lines, there, _, le, _) = line_is-inv corpus f c x e in
      let s = (served f lines there).small in (omega arith, omega arith)
  next_line-small f c x (inr e) =
      let (lines, there, _, le, _) = line_is-inv keys_of f c x e in
      let s = small_keys f lines there in (omega arith, omega arith)

  abbrev Reaches : ℕ → ℕ → ℕ → ℕ → ℕ × ℕ → Type 0
  Reaches f left b c (b', c') =
      (b ≤ b')
      × (b' ≤ b + left)
      × (c' ≡ c + (b' - b))
      × (c' < 2 ^ 32)
      × ((i : ℕ) → i < b' - b → line_is corpus f (c + i) (at block (b + i)) ≡ true)

  Reaches-suc :
      (f left b c : ℕ) (p : ℕ × ℕ)
      → line_is corpus f c (at block b) ≡ true
      → Reaches f left (b + 1) (c + 1) p
      → Reaches f (suc left) b c p
  Reaches-suc f left b c (b', c') here (le, bound, sum, fits, there) =
      (omega arith, omega arith, omega arith, fits, each)
    where
      each : (i : ℕ) → i < b' - b → line_is corpus f (c + i) (at block (b + i)) ≡ true
      each zero lt =
          let eb : b + 0 ≡ b = omega arith in let ec : c + 0 ≡ c = omega arith in rw (eb, ec) here
      each (suc i) lt =
          let eb : b + suc i ≡ b + 1 + i = omega arith in
          let ec : c + suc i ≡ c + 1 + i = omega arith in rw (eb, ec) (there i (omega arith))

  exact_end-Reaches :
      (f left b c : ℕ)
      → c < 2 ^ 32
      → Reaches f left b c (exact_end corpus file hash block f left b c)
  unfolding exact_end
  exact_end-Reaches f zero b c fits =
      (omega arith, omega arith, omega arith, fits, λ i lt. absurd (omega arith))
  exact_end-Reaches f (suc left) b c fits = elim (Bool-cases (line_is corpus f c (at block b))) [
    | inl e ↦
        let (next, small) = next_line-small f c (at block b) (inl e) in
        rw (e, next) (Reaches-suc f left b c _ e (exact_end-Reaches f left (b + 1) (c + 1) small))
    | inr e ↦ rw e (omega arith, omega arith, omega arith, fits, λ i lt. absurd (omega arith))
  ]

  written_literal : (b : ℕ) → b < length block → Writes (at block b ∷ []) (some (at block b ∷ []))
  written_literal b within =
      let shape = drop-at b block within in
      let (first, _) : Plain (at block b) × All Plain (drop (b + 1) block) =
        rw shape at (All-drop Plain b block plain) in
      Emits-literals (resolver disk base_dir corpus file hash served) Rewrapped (at block b ∷ [])
        same (first, tt)

  rewrapped_line-Writes :
      (f c b : ℕ)
      → b < length block
      → line_is keys_of f c (at keys b) ≡ true
      → Writes (at block b ∷ []) (some (rewrapped_line corpus file hash block f b c ∷ []))
  unfolding rewrapped_line
  rewrapped_line-Writes f c b within key = elim (Option-cases (corpus_line corpus f c)) [
    | inl missing ↦ rw (rewrapped_line, missing) (written_literal b within)
    | inr (cl, there) ↦ elim (Option-cases (trim_pad_for cl (at block b))) [
      | inl no_core ↦ rw (rewrapped_line, there, no_core) (written_literal b within)
      | inr (pads, computed) ↦
          let (lines, loaded, first, le, found) = corpus_line-inv corpus f c cl there in
          let (line, written, reads) =
            emit_ref-run disk base_dir corpus file hash served f c c (some pads) lines loaded first
              (omega arith) le in
          let one : c - (c - 1) ≡ 1 = omega arith in
          let run : run_of c c lines ≡ cl ∷ [] =
            rw (one, drop-at (c - 1) lines (omega arith), found) refl in
          record {
            written = rewrapped_line corpus file hash block f b c ∷ [];
            lines = wrapped (some pads) cl ∷ [];
            returns = refl;
            reads = rw (rewrapped_line, there, computed, written) (rw run at reads);
            related = (
              inr (
                b,
                f,
                c,
                cl,
                pads,
                refl,
                key,
                there,
                computed,
                trim_pad_for_lem cl (at block b) pads.0 pads.1 computed,
                refl,
              ),
              tt,
            );
          }
    ]
  ]

  literals-split :
      (b b' end : ℕ)
      → b ≤ b'
      → b' ≤ end
      → literals corpus file hash block b b' ++ literals corpus file hash block b' end
        ≡ literals corpus file hash block b end
  literals-split b b' end le le' =
      let front : b + (b' - b) ≡ b' = omega arith in
      let back : end - b - (b' - b) ≡ end - b' = omega arith in
      let whole = take-take-drop (b' - b) (end - b) (drop b block) (omega arith) in
      rw (drop-drop b (b' - b) block, front, back) at whole

  KeysMatch-shift :
      (f c b n m : ℕ) → m ≤ n → KeysMatch f c b n → KeysMatch f (c + m) (b + m) (n - m)
  KeysMatch-shift f c b n m le h i lt =
      let eb : b + m + i ≡ b + (m + i) = omega arith in
      let ec : c + m + i ≡ c + (m + i) = omega arith in rw (eb, ec) (h (m + i) (omega arith))

  at_run_end : (b end : ℕ) → end ≤ b → Writes (literals corpus file hash block b end) (some [])
  at_run_end b end le =
      let e : end - b ≡ 0 = omega arith in
      rw e (Emits-nil (resolver disk base_dir corpus file hash served) Rewrapped)

  KeysMatch-behind :
      (f end b c : ℕ) (p : ℕ × ℕ)
      → b < end
      → KeysMatch f c b (end - b)
      → Reaches f (end - (b + 1)) (b + 1) (c + 1) p
      → KeysMatch f p.1 p.0 (end - p.0)
  KeysMatch-behind f end b c (b', c') lt h (le, bound, sum, fits, there) =
      let eb : b + (b' - b) ≡ b' = omega arith in
      let ec : c + (b' - b) ≡ c' = omega arith in
      let left : end - b - (b' - b) ≡ end - b' = omega arith in
      rw (eb, ec, left) at (KeysMatch-shift f c b (end - b) (b' - b) (omega arith) h)

  -- The reference to lines that are the same, and the rest of the run.
  exact_front :
      (f end b c : ℕ) (p : ℕ × ℕ) (rest : Option (List Bytes))
      → b < end
      → end ≤ length block
      → line_is corpus f c (at block b) ≡ true
      → Reaches f (end - (b + 1)) (b + 1) (c + 1) p
      → Writes (literals corpus file hash block p.0 end) rest
      → Writes (literals corpus file hash block b end) (
          then_lines
            (some (ref_or_literals corpus file hash block f c (line_before p.1) b p.0))
            rest)
  exact_front f end b c (b', c') rest lt bound here reach behind =
      let (le, le', sum, fits, there) = Reaches-suc f (end - (b + 1)) b c (b', c') here reach in
      let more = reach.0 in
      let stop : b + (b' - b) ≡ b' = omega arith in
      let last : c + (b' - b) - 1 ≡ line_before c' = omega arith in
      let front =
        range-Emits disk base_dir corpus file hash served Rewrapped same block f c b (b' - b)
          (omega arith) (omega arith) there in
      rw (sym (literals-split b b' end (omega arith) (omega arith))) (
        Emits-then (resolver disk base_dir corpus file hash served) Rewrapped
          (rw (stop, last) at front) behind)

  -- A line that is not the same, and the rest of the run.
  rewrapped_front :
      (f end b c : ℕ) (rest : Option (List Bytes))
      → b < end
      → end ≤ length block
      → line_is keys_of f c (at keys b) ≡ true
      → Writes (literals corpus file hash block (b + 1) end) rest
      → Writes
          (literals corpus file hash block b end)
          (then_lines (some (rewrapped_line corpus file hash block f b c ∷ [])) rest)
  rewrapped_front f end b c rest lt bound key below =
      let one : b + 1 - b ≡ 1 = omega arith in
      let first : literals corpus file hash block b (b + 1) ≡ at block b ∷ [] =
        rw (one, drop-at b block (omega arith)) refl in
      let whole = literals-split b (b + 1) end (omega arith) (omega arith) in
      subst
        (λ t. Writes t (then_lines (some (rewrapped_line corpus file hash block f b c ∷ [])) rest))
        (rw first at whole)
        (Emits-then (resolver disk base_dir corpus file hash served) Rewrapped
          (rewrapped_line-Writes f c b (omega arith) key) below)

  pub run_loop-Writes :
      (fuel f end b c : ℕ)
      → end - b ≤ fuel
      → end ≤ length block
      → KeysMatch f c b (end - b)
      → Writes
          (literals corpus file hash block b end)
          (run_loop corpus file hash block fuel f end b c)
  unfolding run_loop
  run_loop-Writes zero f end b c enough bound keys_match =
      let done : ltb b end ≡ false = ground arith in rw done (at_run_end b end (omega arith))
  run_loop-Writes (suc fuel) f end b c enough bound keys_match = elim (Bool-cases (ltb b end)) [
    | inr e ↦ rw e (at_run_end b end (ground arith))
    | inl e ↦ elim (Bool-cases (line_is corpus f c (at block b))) [
      | inl k ↦
          let (next, small) = next_line-small f c (at block b) (inl k) in
          let p = exact_end corpus file hash block f (end - (b + 1)) (b + 1) (c + 1) in
          let reach = exact_end-Reaches f (end - (b + 1)) (b + 1) (c + 1) small in
          let behind =
            run_loop-Writes fuel f end p.0 p.1 (omega (arith, reach.0)) bound
              (KeysMatch-behind f end b c p (ground arith) keys_match reach) in
          rw (e, k, next) (exact_front f end b c p _ (ground arith) bound k reach behind)
      | inr k ↦
          let b_0 : b + 0 ≡ b = omega arith in
          let c_0 : c + 0 ≡ c = omega arith in
          let key : line_is keys_of f c (at keys b) ≡ true =
            rw (b_0, c_0) at (keys_match 0 (ground arith)) in
          let (next, small) = next_line-small f c (at keys b) (inr key) in
          let shift : end - b - 1 ≡ end - (b + 1) = omega arith in
          let below =
            run_loop-Writes fuel f end (b + 1) (c + 1) (omega arith) bound
              (rw shift at (KeysMatch-shift f c b (end - b) 1 (ground arith) keys_match)) in
          rw (e, k, next) (rewrapped_front f end b c _ (ground arith) bound key below)
    ]
  ]
