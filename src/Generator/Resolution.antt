-- ===== src/Generator/Resolution.antt =====
-- A reference of tools/changes.cpp on its whole way: written, read by patch.cpp, and looked up by the
-- resolver of phpatcher.cpp.
use phpatcher.Base.{
  leb, Bytes, length, take, drop, get_elem?, ok, ℕ, zero, suc, ◌+◌, ◌-◌, ◌^◌, ◌≤◌, ◌<◌, Bool, true,
  false, List, [], ◌∷◌, ◌++◌, map, append-nil, ◌⊎◌, inl, inr, Option, none, some, ◌≡◌, refl, ap,
  fun_ext, arith,
}
use phpatcher.Apply.{padded, resolved_lines, build_input}
use phpatcher.Directive.{parse_r_directive, parse_ed_input_piece}
use phpatcher.Ed.{Transform, EdRef, reference}
use phpatcher.Generator.{
  Corpus, corpus_line, line_after, ref_loop, ref_bytes, guard_text, make_guard, ref_line, emit_ref,
}
use phpatcher.Generator.References.{guarded, with_pads, range_ref, parse_r_directive-ref_line}
use phpatcher.Number.{int64_max}
use phpatcher.RefHash.{RefHash, ref_hash}
use phpatcher.Resolver.{Disk, split_corpus_lines, full_path, run_of, run_length, resolve_ref}
use phpatcher.Resolver.Guards.{Resolves, run_of-IsRange, length-terminated, resolve_ref_iff}
use phpatcher.Text.{trim_blanks}
use phpatcher.Text.Lines.{terminated}

drop-cons {ℓ} :
    {A : Type ℓ} (i : ℕ) (xs : List A)
    → i < length xs
    → (x : A) × (get_elem? xs i ≡ some x) × (drop i xs ≡ x ∷ drop (suc i) xs)
drop-cons zero [] h = absurd (omega arith)
drop-cons zero (x ∷ xs) h = (x, refl, refl)
drop-cons (suc i) [] h = absurd (omega arith)
drop-cons (suc i) (x ∷ xs) h = drop-cons i xs (omega arith)

-- The loop over a range that the file has.
ref_loop_lem :
    (corpus : Corpus) (file_id i count end : ℕ) (lines : List Bytes)
    → corpus file_id ≡ some lines
    → i + count ≡ end
    → end ≤ length lines
    → end + 1 < 2 ^ 32
    → let run = take count (drop i lines) in
      ref_loop corpus file_id (suc count) (suc i) end ≡ some (terminated run, run_length run)
unfolding ref_loop
ref_loop_lem corpus file_id i zero end lines loaded sum within small =
    let stop : leb (suc i) end ≡ false = ground arith in rw stop refl
ref_loop_lem corpus file_id i (suc count) end lines loaded sum within small =
    let (x, at_i, shape) = drop-cons i lines (omega arith) in
    let here : corpus_line corpus file_id (suc i) ≡ some x =
      unfold corpus_line in rw (loaded, at_i) refl in
    let next : line_after (suc i) ≡ suc (suc i) = omega arith in
    let on : leb (suc i) end ≡ true = ground arith in
    rw
      (
        on,
        here,
        next,
        ref_loop_lem corpus file_id (suc i) count end lines loaded (omega arith) within small,
        shape,
      )
      refl

-- A line of the corpus as the reference puts it in.
abbrev pub wrapped : Option (Bytes × Bytes) → Bytes → Bytes
wrapped none l = l
wrapped (some (lpad, rpad)) l = lpad ++ (trim_blanks l ++ rpad)

ref_bytes-range :
    (corpus : Corpus) (file_id begin end : ℕ) (lines : List Bytes)
    → corpus file_id ≡ some lines
    → 1 ≤ begin
    → begin ≤ end
    → end ≤ length lines
    → end + 1 < 2 ^ 32
    → ref_bytes corpus file_id begin end
      ≡ some (terminated (run_of begin end lines), run_length (run_of begin end lines))
unfolding ref_bytes
ref_bytes-range corpus file_id zero end lines loaded first ordered within small =
    absurd (omega arith)
ref_bytes-range corpus file_id (suc i) end lines loaded first ordered within small =
    let e : end + 2 - suc i ≡ suc (end - i) = omega arith in
    let s : suc i - 1 ≡ i = omega arith in
    rw (e, s) (ref_loop_lem corpus file_id i (end - i) end lines loaded (omega arith) within small)

module _ (disk : Disk) (base_dir path content : Bytes) (begin end : ℕ)
    (at : disk (full_path base_dir path) ≡ some content) (first : 1 ≤ begin) (ordered : begin ≤ end)
    (within : end ≤ length (split_corpus_lines content)) where
  abbrev run : List Bytes
  run = run_of begin end (split_corpus_lines content)

  abbrev directive : Bool → Option (Bytes × Bytes) → EdRef
  directive hash pads =
      guarded hash (terminated run, run_length run) (with_pads pads (range_ref path begin end))

  resolving :
      (bytes : Option ℕ) (has_hash : Bool) (hash : RefHash) (transform : Transform)
      (lpad rpad : Bytes)
      → (bytes ≡ none) ⊎ (bytes ≡ some (length (terminated run)))
      → (has_hash ≡ false)
        ⊎ ((hash.a ≡ (ref_hash (terminated run)).a) × (hash.b ≡ (ref_hash (terminated run)).b))
      → Resolves disk base_dir
          (record {
            path = path;
            begin = begin;
            end = end;
            bytes = bytes;
            has_hash = has_hash;
            hash = hash;
            transform = transform;
            lpad = lpad;
            rpad = rpad;
          })
          run
  resolving bytes has_hash hash transform lpad rpad long same = record {
    content = content;
    readable = at;
    some_lines = (run_of-IsRange begin end (split_corpus_lines content) first ordered within).1;
    range = (run_of-IsRange begin end (split_corpus_lines content) first ordered within).0;
    length_guard = long;
    hash_guard = same;
  }

  directive-Resolves :
      (hash : Bool) (pads : Option (Bytes × Bytes))
      → Resolves disk base_dir (directive hash pads) run
  directive-Resolves true none = resolving _ _ _ _ _ _ (inl refl) (inr (refl, refl))
  directive-Resolves true (some (lpad, rpad)) = resolving _ _ _ _ _ _ (inl refl) (inr (refl, refl))
  directive-Resolves false none =
      resolving _ _ _ _ _ _ (inr (ap (λ (n : ℕ). some n) (length-terminated run))) (inl refl)
  directive-Resolves false (some (lpad, rpad)) =
      resolving _ _ _ _ _ _ (inr (ap (λ (n : ℕ). some n) (length-terminated run))) (inl refl)

  padded-wrapped :
      (hash : Bool) (pads : Option (Bytes × Bytes)) (l : Bytes)
      → padded (directive hash pads) l ≡ wrapped pads l
  unfolding padded
  padded-wrapped true none l = refl
  padded-wrapped true (some (lpad, rpad)) l = refl
  padded-wrapped false none l = refl
  padded-wrapped false (some (lpad, rpad)) l = refl

  build_input-directive :
      (hash : Bool) (pads : Option (Bytes × Bytes))
      → build_input (some (resolve_ref disk base_dir)) (reference (directive hash pads) ∷ [])
        ≡ ok (map (wrapped pads) run)
  unfolding build_input resolved_lines
  build_input-directive hash pads =
      rw
        (
          (resolve_ref_iff disk base_dir (directive hash pads) run).1
              (directive-Resolves hash pads),
          fun_ext (padded-wrapped hash pads),
          append-nil,
        )
        refl

parse_ed_input_piece-reference :
    (line : Bytes) (ref : EdRef)
    → parse_r_directive line ≡ some ref
    → parse_ed_input_piece line ≡ reference ref
unfolding parse_ed_input_piece
parse_ed_input_piece-reference line ref h = rw (h, parse_ed_input_piece) refl

-- For a range that a corpus file has and that ends in front of the last uint32_t, the generator writes a reference, and under either guard the
-- patcher, which reads the same file, puts in the lines of the range: as they are, or each of them
-- trimmed between the paddings.
pub emit_ref-build_input :
    (disk : Disk) (base_dir : Bytes) (corpus : Corpus) (file : ℕ → Bytes) (hash : Bool)
    (file_id begin end : ℕ) (pads : Option (Bytes × Bytes)) (content : Bytes)
    → disk (full_path base_dir (file file_id)) ≡ some content
    → corpus file_id ≡ some (split_corpus_lines content)
    → 1 ≤ begin
    → begin ≤ end
    → end ≤ length (split_corpus_lines content)
    → end + 1 < 2 ^ 32
    → let run = run_of begin end (split_corpus_lines content) in
      run_length run ≤ int64_max
      → (line : Bytes) × (emit_ref corpus file hash file_id begin end pads ≡ some line)
        × (build_input (some (resolve_ref disk base_dir)) (parse_ed_input_piece line ∷ [])
            ≡ ok (map (wrapped pads) run))
unfolding emit_ref
emit_ref-build_input disk base_dir corpus file hash file_id begin end pads content at loaded first
      ordered within bound fits =
    let lines = split_corpus_lines content in
    let r : Bytes × ℕ =
      (terminated (run_of begin end lines), run_length (run_of begin end lines)) in
    let path = file file_id in
    let guard : make_guard corpus hash file_id begin end ≡ some (guard_text hash r) =
      unfold make_guard in
      rw (ref_bytes-range corpus file_id begin end lines loaded first ordered within bound) refl in
    let piece : parse_ed_input_piece (ref_line path begin end pads (guard_text hash r))
        ≡ reference (guarded hash r (with_pads pads (range_ref path begin end))) =
      parse_ed_input_piece-reference _ _ (
        parse_r_directive-ref_line path begin end pads hash r first ordered (omega (arith, bound))
          fits) in
    (
      ref_line path begin end pads (guard_text hash r),
      rw guard refl,
      rw piece (
          build_input-directive disk base_dir path content begin end at first ordered within hash
            pads),
    )
