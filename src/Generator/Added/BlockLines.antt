-- ===== src/Generator/Added/BlockLines.antt =====
-- The lines that are written for a block can stand in it: none has a newline inside, and none is the
-- `.` that ends it.
use phpatcher.Base.Options.{bind-eq-some}
use phpatcher.Base.{
  ◌==◌, if◌then◌else◌, Bool-cases, Bytes, codes, equal, length, is_empty, All, All-append, ℕ, zero,
  suc, Bool, true, false, List, [], ◌∷◌, ◌≢◌, inl, inr, Option, none, some, ◌≡◌, refl, subst, arith,
}
use phpatcher.Generator.{
  Corpus, escape_ed, quote_body, quote_ed, ref_bytes, guard_text, make_guard, pads_text, ref_line,
  emit_ref,
}
use phpatcher.Generator.Added.{block_runs, emit_added_corpus}
use phpatcher.Generator.Added.Lines.{EachWritten, emit_loop-EachWritten}
use phpatcher.Generator.Texts.{IsDigit-IsLine, number-IsLine}
use phpatcher.IndexFile.{Loaded}
use phpatcher.Normalizer.{NormLine}
use phpatcher.Number.Print.{to_string, to_string-digits}
use phpatcher.RefHash.{ref_hash, hex_digit, lane_hex, ref_hash_hex}
use phpatcher.Text.{newline}
use phpatcher.Text.Lines.{IsLine}

-- An escaped byte, digits and quoted text hold no newline.
IsLine-if : (test : Bool) (x y : Bytes) → IsLine x → IsLine y → IsLine (if test then x else y)
IsLine-if true x y h k = h
IsLine-if false x y h k = k

last_escape : (c : ℕ) → IsLine (if c == b'\n' then b'\\' ∷ b'n' ∷ [] else c ∷ [])
last_escape c = elim (Bool-cases (c == b'\n')) [
  | inl e ↦ rw e ((λ d. ground arith), ((λ d. ground arith), tt))
  | inr e ↦ rw e ((λ d. ground arith), tt)
]

escape_ed-IsLine : (c : ℕ) → IsLine (escape_ed c)
unfolding escape_ed
escape_ed-IsLine c =
    IsLine-if (c == b'\\') _ _ ((λ d. ground arith), ((λ d. ground arith), tt))
      (IsLine-if (c == b'"') _ _ ((λ d. ground arith), ((λ d. ground arith), tt))
        (IsLine-if (c == b'\t') _ _ ((λ d. ground arith), ((λ d. ground arith), tt))
          (IsLine-if (c == b'\r') _ _ ((λ d. ground arith), ((λ d. ground arith), tt))
            (last_escape c))))

quote_body-IsLine : (s : Bytes) → IsLine (quote_body s)
unfolding quote_body
quote_body-IsLine [] = tt
quote_body-IsLine (c ∷ s) =
    All-append (λ d. d ≢ newline) (escape_ed c) (quote_body s) (escape_ed-IsLine c)
      (quote_body-IsLine s)

quote_ed-IsLine : (s : Bytes) → IsLine (quote_ed s)
unfolding quote_ed
quote_ed-IsLine s = (
  (λ e. ground arith),
  All-append (λ d. d ≢ newline) (quote_body s) (b'"' ∷ []) (quote_body-IsLine s)
      ((λ e. ground arith), tt),
)

lane_hex-IsLine : (n h : ℕ) → IsLine (lane_hex n h)
unfolding lane_hex
lane_hex-IsLine zero h = tt
lane_hex-IsLine (suc n) h = ((λ e. unfold hex_digit in ground arith), lane_hex-IsLine n h)

guard_text-IsLine : (hash : Bool) (r : Bytes × ℕ) → IsLine (guard_text hash r)
unfolding guard_text ref_hash_hex
guard_text-IsLine true (bytes, len) = (
  (λ e. ground arith),
  (
    (λ e. ground arith),
    All-append (λ d. d ≢ newline) (lane_hex 16 (ref_hash bytes).a) (lane_hex 16 (ref_hash bytes).b)
        (lane_hex-IsLine 16 (ref_hash bytes).a) (lane_hex-IsLine 16 (ref_hash bytes).b),
  ),
)
guard_text-IsLine false (bytes, len) = (
  (λ e. ground arith),
  ((λ e. ground arith), IsDigit-IsLine (to_string len) (to_string-digits len).1),
)

pads_text-IsLine : (pads : Option (Bytes × Bytes)) → IsLine (pads_text pads)
unfolding pads_text
pads_text-IsLine none = tt
pads_text-IsLine (some (lpad, rpad)) = (
  (λ e. ground arith),
  All-append (λ d. d ≢ newline) (quote_ed lpad) (b' ' ∷ quote_ed rpad) (quote_ed-IsLine lpad)
      ((λ e. ground arith), quote_ed-IsLine rpad),
)

-- A line that stands for itself in a block: without a newline inside, and not the `.` at its end.
abbrev pub IsBlockLine : Bytes → Type 0
IsBlockLine l = IsLine l × (equal l (codes ".") ≡ false)

nil-IsBlockLine : IsBlockLine []
unfolding equal
nil-IsBlockLine = (tt, refl)

ref_line-IsBlockLine :
    (path : Bytes) (begin end : ℕ) (pads : Option (Bytes × Bytes)) (hash : Bool) (r : Bytes × ℕ)
    → IsBlockLine (ref_line path begin end pads (guard_text hash r))
unfolding ref_line equal
ref_line-IsBlockLine path begin end pads hash r = (
  (
    (λ e. ground arith),
    (
      (λ e. ground arith),
      All-append (λ d. d ≢ newline) (quote_ed path) _ (quote_ed-IsLine path)
          (
            (λ e. ground arith),
            number-IsLine begin _ (
              (λ e. ground arith),
              number-IsLine end _ (
                  All-append (λ d. d ≢ newline) (pads_text pads) _ (pads_text-IsLine pads)
                    (
                      (λ e. ground arith),
                      ((λ e. ground arith), ((λ e. ground arith), guard_text-IsLine hash r)),
                    )),
            ),
          ),
    ),
  ),
  refl,
)

emit_ref-IsBlockLine :
    (corpus : Corpus) (file : ℕ → Bytes) (hash : Bool) (file_id begin end : ℕ)
    (pads : Option (Bytes × Bytes)) (line : Bytes)
    → emit_ref corpus file hash file_id begin end pads ≡ some line
    → IsBlockLine line
unfolding emit_ref make_guard
emit_ref-IsBlockLine corpus file hash file_id begin end pads line e =
    let (guard, made, h) = bind-eq-some (make_guard corpus hash file_id begin end) _ e in
    let (r, _, g) = bind-eq-some (ref_bytes corpus file_id begin end) _ made in
    let same : ref_line (file file_id) begin end pads (guard_text hash r) ≡ line = cc in
    subst IsBlockLine same (ref_line-IsBlockLine (file file_id) begin end pads hash r)

-- The block that is written can be read up to its end.
pub emit_added_corpus-IsBlockLine :
    (run : Bytes → List NormLine) (idx : Loaded) (corpus keys_of : Corpus) (file : ℕ → Bytes)
    (hash : Bool) (min_run : ℕ) (added written : List Bytes)
    → All IsBlockLine added
    → emit_added_corpus run idx corpus keys_of file hash min_run added ≡ some written
    → All IsBlockLine written
unfolding emit_added_corpus
emit_added_corpus-IsBlockLine run idx corpus keys_of file hash min_run added written h e =
    elim (Bool-cases (is_empty added)) [
      | inl g ↦ let same : [] ≡ written = cc (rw g at e) in subst (All IsBlockLine) same tt
      | inr g ↦
          let each =
            emit_loop-EachWritten IsBlockLine corpus file hash added nil-IsBlockLine h
              (emit_ref-IsBlockLine corpus file hash) idx.normalized (length added)
              (block_runs run idx corpus keys_of file hash min_run added) 0 in
          subst
            (EachWritten IsBlockLine corpus file hash added nil-IsBlockLine h
              (emit_ref-IsBlockLine corpus file hash))
            (rw g at e) each
    ]
