-- ===== src/Indexer/Serial/Occurrences.antt =====
-- A byte index names each line of each file that is long enough, and no other.
use phpatcher.Base.{
  leb, Bool-cases, Option-cases, Bytes, equal, length, is_empty, length-append, All, ℕ, ◌+◌, ◌^◌,
  ◌≤◌, ◌<◌, not, ◌&&◌, List, [], ◌∷◌, ◌++◌, append-nil, append_assoc, inl, inr, Option, some, ◌≡◌,
  refl, sym, ap, ◌∙◌, arith,
}
use phpatcher.Dict.{lookup}
use phpatcher.Generator.{trim}
use phpatcher.Indexer.{FileScan, scan_line, scan_bytes, NormFile}
use phpatcher.Indexer.Files.{file_lines, scan_all, scan_bytes-lines}
use phpatcher.Indexer.Serial.{begin_file, scan_files, no_scan}
use phpatcher.Indexer.Serial.Lines.{Numbered, not_yet, numbered, scan_line-Reads}
use phpatcher.Indexer.Serial.Located.{located, occurrences, all_occurrences, InRange}

module _ (min_len : ℕ) (rel : Bytes) where
  occurrences-cons :
      (j raw : Bytes) (n : ℕ) (lines : List Bytes)
      → occurrences min_len rel j n (raw ∷ []) ++ occurrences min_len rel j (n + 1) lines
        ≡ occurrences min_len rel j n (raw ∷ lines)
  occurrences-cons j raw n lines =
      elim (Bool-cases
        (not (is_empty (trim raw)) && leb min_len (length (trim raw)) && equal (trim raw) j)) [
          | inl e ↦ rw e refl
          | inr e ↦ rw e refl
        ]

  module _ (before : List Bytes) (room : length before + 1 < 2 ^ 32) where
    -- What all lines of a file do.
    record ReadsAll (st next : FileScan) (lines : List Bytes) : Type 0 where
      pub number : Numbered before rel next
      pub in_range : InRange next
      pub adds :
          (j : Bytes) → located j next ≡ located j st ++ occurrences min_len rel j st.lineno lines

    scan_all-ReadsAll :
        (lines : List Bytes) (st : FileScan)
        → Numbered before rel st
        → InRange st
        → st.lineno + length lines < 2 ^ 32
        → ReadsAll st (scan_all min_len rel lines st) lines
    scan_all-ReadsAll [] st n r small = record {
      number = n;
      in_range = r;
      adds = λ j. sym (append-nil (located j st));
    }
    scan_all-ReadsAll (raw ∷ lines) st n r small =
        let one = scan_line-Reads min_len rel before room raw st n r (omega arith) in
        let rest =
          scan_all-ReadsAll lines (scan_line min_len rel raw st) (one.number) (one.in_range)
            (omega (arith, one.line)) in
        record {
          number = rest.number;
          in_range = rest.in_range;
          adds = λ j.
              rest.adds j
              ∙ rw (one.line, one.adds j)
                  (append_assoc (located j st) _ _
                    ∙ ap (λ (t : List (Option Bytes × ℕ)). located j st ++ t)
                        (occurrences-cons j raw st.lineno lines));
        }

Numbered-length :
    (before : List Bytes) (rel : Bytes) (st : FileScan)
    → Numbered before rel st
    → length st.index.files ≤ length before + 1
Numbered-length before rel st (not_yet _ e) = omega (arith, ap (λ (t : List Bytes). length t) e)
Numbered-length before rel st (numbered _ e _) =
    omega (arith, ap (λ (t : List Bytes). length t) e, length-append before (rel ∷ []))

-- A file that is read.
scan_file-ReadsAll :
    (min_len : ℕ) (rel s : Bytes) (st : FileScan)
    → InRange st
    → length st.index.files + 1 < 2 ^ 32
    → length (file_lines s) < 2 ^ 32
    → (room : length st.index.files + 1 < 2 ^ 32)
    → ReadsAll min_len rel st.index.files room
        (begin_file st)
        (scan_bytes min_len rel [] s (begin_file st))
        (file_lines s)
unfolding begin_file
scan_file-ReadsAll min_len rel s st r fits small room =
    rw (scan_bytes-lines min_len rel [] s (begin_file st)) (
      scan_all-ReadsAll min_len rel st.index.files room (file_lines s) (begin_file st)
        (not_yet refl refl) r (omega (arith, small)))

-- A file whose lines can be numbered.
abbrev pub IsCountable : NormFile → Type 0
IsCountable f = (s : Bytes) → f.content ≡ some s → length (file_lines s) < 2 ^ 32

scan_files-located :
    (min_len : ℕ) (files : List NormFile) (st : FileScan) (j : Bytes)
    → InRange st
    → length st.index.files + length files < 2 ^ 32
    → All IsCountable files
    → located j (scan_files min_len files st) ≡ located j st ++ all_occurrences min_len j files
unfolding scan_files begin_file
scan_files-located min_len [] st j r fits _ = sym (append-nil (located j st))
scan_files-located min_len (f ∷ files) st j r fits (small, counts) = elim (Option-cases f.content) [
  | inl missing ↦ rw missing (scan_files-located min_len files st j r (omega arith) counts)
  | inr (s, there) ↦
      let room : length st.index.files + 1 < 2 ^ 32 = omega arith in
      let read = scan_file-ReadsAll min_len f.rel s st r room (small s there) room in
      let next = scan_bytes min_len f.rel [] s (begin_file st) in
      let more = Numbered-length st.index.files f.rel next (read.number) in
      rw there (
        scan_files-located min_len files next j (read.in_range) (omega (arith, more)) counts
        ∙ ap (λ (t : List (Option Bytes × ℕ)). t ++ all_occurrences min_len j files) (read.adds j)
        ∙ append_assoc (located j st) _ _)
]

-- The index of all files: for each key the files and the numbers of its lines, in their order.
pub located-scan_files :
    (min_len : ℕ) (files : List NormFile) (j : Bytes)
    → length files < 2 ^ 32
    → All IsCountable files
    → located j (scan_files min_len files no_scan) ≡ all_occurrences min_len j files
unfolding lookup
located-scan_files min_len files j fits counts =
    scan_files-located min_len files no_scan j (λ _. tt) (omega (arith, fits)) counts
