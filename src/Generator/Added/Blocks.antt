-- ===== src/Generator/Added/Blocks.antt =====
-- The added lines on their whole way: factorized, written, and put in by patch.cpp.
use phpatcher.Base.{
  if◌then◌else◌, Bool-cases, Bytes, length, is_empty, All, All-always, All-map, ok, ℕ, ◌+◌, ◌-◌,
  ◌^◌, ◌≤◌, ◌<◌, Bool, true, false, List, [], ◌∷◌, map, inl, inr, some, ◌≡◌, refl, sym, ap, subst,
  ◌∙◌, arith,
}
use phpatcher.Apply.{build_input}
use phpatcher.Collector.Placed.{Plain}
use phpatcher.Directive.{parse_ed_input_piece}
use phpatcher.Factorize.{Run, run_size}
use phpatcher.Factorize.Rounds.{IsRun}
use phpatcher.Factorize.Sorted.{factorize_lem}
use phpatcher.Generator.{Corpus, trim}
use phpatcher.Generator.Added.{
  at, line_is, literals, emit_run, block_keys, lines_equal, block_runs, emit_added_corpus,
}
use phpatcher.Generator.Added.Ranges.{IsServed, line_is-inv, resolver, range-Emits}
use phpatcher.Generator.Added.Reading.{AllPairs, Emits, Emits-nil}
use phpatcher.Generator.Added.Rewrapped.{Rewrapped, run_loop-Writes}
use phpatcher.Generator.Added.Walk.{IsWritten, emit_loop-Emits}
use phpatcher.IndexFile.{Posting, Loaded, find_postings}
use phpatcher.Normalizer.{NormLine}
use phpatcher.Resolver.{Disk, resolve_ref}
use phpatcher.Words.{IsU32}

pub line_is-zero : (corpus : Corpus) (f : ℕ) (x : Bytes) → line_is corpus f 0 x ≡ false
line_is-zero corpus f x = elim (Bool-cases (line_is corpus f 0 x)) [
  | inl e ↦ let (_, _, first, _, _) = line_is-inv corpus f 0 x e in absurd (omega arith)
  | inr e ↦ e
]

AllPairs-eq : (xs ys : List Bytes) → AllPairs (λ x m. m ≡ x) xs ys → ys ≡ xs
AllPairs-eq [] [] _ = refl
AllPairs-eq [] (y ∷ ys) bad = absurd (omega arith)
AllPairs-eq (x ∷ xs) [] bad = absurd (omega arith)
AllPairs-eq (x ∷ xs) (y ∷ ys) (e, h) = rw (e, AllPairs-eq xs ys h) refl

pub is_empty-nil : (xs : List Bytes) → is_empty xs ≡ true → xs ≡ []
is_empty-nil [] e = refl
is_empty-nil (x ∷ xs) e = cc

pub length-map : (f : Bytes → Bytes) (xs : List Bytes) → length (map f xs) ≡ length xs
length-map f [] = refl
length-map f (x ∷ xs) = omega (arith, length-map f xs)

-- A loaded index, whose line numbers are 32-bit words.
abbrev pub HasWords : Loaded → Type 0
HasWords idx =
    (key : Bytes) (post : List Posting)
    → find_postings idx key ≡ some post
    → All (λ pp. IsU32 pp.lineno) post

module _ (disk : Disk) (base_dir : Bytes) (run : Bytes → List NormLine) (idx : Loaded)
    (corpus keys_of : Corpus) (file : ℕ → Bytes) (hash : Bool) (min_run : ℕ) (added : List Bytes)
    (served : (f : ℕ) (lines : List Bytes)
      → corpus f ≡ some lines
      → IsServed disk base_dir (file f) lines)
    (words : HasWords idx) (plain : All Plain added) where
  abbrev equal_lines : ℕ → ℕ → ℕ → Bool
  equal_lines = lines_equal run idx corpus keys_of file hash min_run added

  abbrev used_keys : List Bytes
  used_keys = block_keys run idx corpus keys_of file hash min_run added

  none_first : (b f : ℕ) → equal_lines b f 0 ≡ false
  unfolding lines_equal
  none_first b f = elim (Bool-cases idx.normalized) [
    | inl e ↦ rw (lines_equal, e) (line_is-zero keys_of f _)
    | inr e ↦ rw (lines_equal, e) (line_is-zero corpus f _)
  ]

  -- All runs can be written, so the whole block can.
  block-Emits :
      (L : Bytes → Bytes → Type 0) (same : (x : Bytes) → L x x)
      → length used_keys ≡ length added
      → ((r : Run)
          → IsRun equal_lines (length used_keys) r
          → IsWritten
              (resolver disk base_dir corpus file hash served)
              L
              same
              corpus
              file
              hash
              added
              plain
              idx.normalized
              r)
      → Emits
          (resolver disk base_dir corpus file hash served)
          L
          added
          (emit_added_corpus run idx corpus keys_of file hash min_run added)
  unfolding emit_added_corpus block_runs
  block-Emits L same sized write = elim (Bool-cases (is_empty added)) [
    | inl e ↦
        rw (emit_added_corpus, e)
          (subst (λ t. Emits (resolver disk base_dir corpus file hash served) L t (some []))
            (sym (is_empty-nil added e))
            (Emits-nil (resolver disk base_dir corpus file hash served) L))
    | inr e ↦
        let runs = block_runs run idx corpus keys_of file hash min_run added in
        let (accepted, chain) =
          factorize_lem used_keys min_run (find_postings idx) equal_lines none_first words in
        rw (emit_added_corpus, e)
          (emit_loop-Emits (resolver disk base_dir corpus file hash served) L same corpus file hash
            added plain idx.normalized (length added) runs 0 (omega arith) (omega arith)
            (All-map (λ r. IsRun equal_lines (length used_keys) r × (min_run ≤ run_size r)) _ runs
              (λ r (h, _). write r h) accepted)
            (All-always (λ r. 0 ≤ r.block_begin) runs λ r. omega arith) chain)
  ]

  -- The runs of a byte index: references to the very lines.
  exact_run :
      (same : (x : Bytes) → x ≡ x) (r : Run)
      → idx.normalized ≡ false
      → IsRun equal_lines (length used_keys) r
      → IsWritten
          (resolver disk base_dir corpus file hash served)
          (λ x m. m ≡ x)
          same
          corpus
          file
          hash
          added
          plain
          idx.normalized
          r
  unfolding emit_run lines_equal block_keys
  exact_run same r bytes h =
      let sized : length used_keys ≡ length added =
        rw (block_keys, bytes) (length-map trim added) in
      let stop : r.block_begin + run_size r ≡ r.block_end =
        unfold run_size in omega (arith, h.nonempty) in
      let last : r.corpus_begin + run_size r - 1 ≡ r.corpus_end = omega (arith, h.same_length) in
      let some_lines : 1 ≤ run_size r = unfold run_size in omega (arith, h.nonempty) in
      let bound : r.block_end ≤ length added = omega (arith, h.bound) in
      record {
        nonempty = h.nonempty;
        bound = bound;
        emits =
            rw (emit_run, bytes)
              (rw (stop, last) at
                (range-Emits disk base_dir corpus file hash served (λ x m. m ≡ x) same added
                  r.file_id r.corpus_begin r.block_begin (run_size r) some_lines
                  (rw (sym stop) at bound) λ i lt. rw (lines_equal, bytes) at (h.verified i lt)));
      }

  -- With a byte index the patcher puts in just the added lines.
  pub emit_added_corpus-build_input :
      idx.normalized ≡ false
      → (written : List Bytes) × (emit_added_corpus run idx corpus keys_of file hash min_run added
          ≡ some written)
        × (build_input (some (resolve_ref disk base_dir)) (map parse_ed_input_piece written)
            ≡ ok added)
  unfolding block_keys
  emit_added_corpus-build_input bytes =
      let sized : length used_keys ≡ length added =
        rw (block_keys, bytes) (length-map trim added) in
      let e = block-Emits (λ x m. m ≡ x) (λ x. refl) sized (λ r. exact_run (λ x. refl) r bytes) in
      (
        e.written,
        e.returns,
        e.reads ∙ ap (λ (t : List Bytes). ok t) (AllPairs-eq added e.lines e.related),
      )

  by_keys :
      idx.normalized ≡ true → (b f c : ℕ) → equal_lines b f c ≡ line_is keys_of f c (at used_keys b)
  unfolding lines_equal
  by_keys normal b f c =
      ap
        (λ (n : Bool).
          if n then line_is keys_of f c (at used_keys b) else line_is corpus f c (at added b))
        normal

  -- The runs of a normalized index: references to lines with the same keys.
  rewrapped_run :
      (small_keys : (f : ℕ) (keys : List Bytes) → keys_of f ≡ some keys → length keys + 1 < 2 ^ 32)
      (r : Run)
      → idx.normalized ≡ true
      → length used_keys ≡ length added
      → IsRun equal_lines (length used_keys) r
      → IsWritten
          (resolver disk base_dir corpus file hash served)
          (Rewrapped disk base_dir corpus keys_of file hash served small_keys added used_keys plain)
          (λ x. inl refl)
          corpus
          file
          hash
          added
          plain
          idx.normalized
          r
  unfolding emit_run lines_equal
  rewrapped_run small_keys r normal sized h =
      let size : r.block_end - r.block_begin ≡ run_size r = unfold run_size in refl in
      let bound : r.block_end ≤ length added = omega (arith, h.bound) in
      let L =
        Rewrapped disk base_dir corpus keys_of file hash served small_keys added used_keys plain in
      record {
        nonempty = h.nonempty;
        bound = bound;
        emits =
            subst
              (λ n.
                Emits (resolver disk base_dir corpus file hash served) L
                  (literals corpus file hash added r.block_begin r.block_end)
                  (emit_run corpus file hash added n r))
              (sym normal)
              (run_loop-Writes disk base_dir corpus keys_of file hash served small_keys added
                used_keys plain (run_size r) r.file_id r.block_end r.block_begin r.corpus_begin
                (omega arith) bound
                λ i lt. sym (by_keys normal _ _ _) ∙ h.verified i (rw size at lt));
      }

  -- With a normalized index that has a key for each added line, the loops that write the added lines
  -- end, and the patcher puts in a line for each of them: the line itself, or the core of a line of the
  -- corpus with the same key between the paddings of the added line, which are what is left of the
  -- added line around its own core. The two cores may differ in their bytes.
  pub emit_added_corpus-Rewrapped :
      (small_keys : (f : ℕ) (keys : List Bytes) → keys_of f ≡ some keys → length keys + 1 < 2 ^ 32)
      → idx.normalized ≡ true
      → length used_keys ≡ length added
      → (written : List Bytes) × (lines : List Bytes) × (emit_added_corpus run idx corpus keys_of
            file hash min_run added
          ≡ some written)
        × (build_input (some (resolve_ref disk base_dir)) (map parse_ed_input_piece written)
            ≡ ok lines)
        × AllPairs
            (Rewrapped disk base_dir corpus keys_of file hash served small_keys added used_keys
              plain)
            added
            lines
  emit_added_corpus-Rewrapped small_keys normal sized =
      let e =
        block-Emits
          (Rewrapped disk base_dir corpus keys_of file hash served small_keys added used_keys plain)
          (λ x. inl refl) sized (λ r. rewrapped_run small_keys r normal sized) in
      (e.written, e.lines, e.returns, e.reads, e.related)
