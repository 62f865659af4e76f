-- ===== src/Indexer/Files.antt =====
-- The scan of a file of a byte index, line by line.
use phpatcher.Base.{
  ltb, leb, ◌==◌, if◌then◌else◌, Bool-cases, Bytes, equal, length, is_empty, ℕ, ◌+◌, ◌%◌, ◌^◌, true,
  false, not, ◌&&◌, List, [], ◌∷◌, ◌++◌, append-nil, append_assoc, inl, inr, ◌≡◌, refl, sym, ap,
  ◌∙◌, arith,
}
use phpatcher.Generator.{trim}
use phpatcher.IndexFile.{pack}
use phpatcher.Indexer.{push_postings, FileScan, ensure_id, add_posting, scan_line, scan_bytes}
use phpatcher.Indexer.Workers.{postings, postings-push_postings}
use phpatcher.Text.{newline, scan_lines}

-- The lines of a file: what stands in front of each newline, and the rest if there is any.
abbrev pub raw_lines : Bytes × List Bytes → List Bytes
raw_lines (last, lines) = lines ++ (if is_empty last then [] else last ∷ [])

abbrev pub file_lines : Bytes → List Bytes
file_lines s = raw_lines ((scan_lines [] s).1, (scan_lines [] s).0)

scan_end :
    (cur : Bytes) (c : ℕ) (s : Bytes)
    → (c == newline) ≡ true
    → scan_lines cur (c ∷ s) ≡ (cur ∷ (scan_lines [] s).0, (scan_lines [] s).1)
unfolding scan_lines
scan_end cur c s e = rw (scan_lines, e) refl

scan_on :
    (cur : Bytes) (c : ℕ) (s : Bytes)
    → (c == newline) ≡ false
    → scan_lines cur (c ∷ s) ≡ scan_lines (cur ++ c ∷ []) s
unfolding scan_lines
scan_on cur c s e = rw (scan_lines, e) refl

module _ (min_len : ℕ) (rel : Bytes) where
  abbrev pub scan_all : List Bytes → FileScan → FileScan
  scan_all [] st = st
  scan_all (l ∷ lines) st = scan_all lines (scan_line min_len rel l st)

  pub scan_bytes-lines :
      (cur s : Bytes) (st : FileScan)
      → scan_bytes min_len rel cur s st
        ≡ scan_all (raw_lines ((scan_lines cur s).1, (scan_lines cur s).0)) st
  unfolding scan_bytes scan_lines
  scan_bytes-lines [] [] st = refl
  scan_bytes-lines (c ∷ cur) [] st = refl
  scan_bytes-lines cur (c ∷ s) st = elim (Bool-cases (c == newline)) [
    | inl e ↦ rw (e, scan_end cur c s e) (scan_bytes-lines [] s (scan_line min_len rel cur st))
    | inr e ↦ rw (e, scan_on cur c s e) (scan_bytes-lines (cur ++ c ∷ []) s st)
  ]

  -- The number that the file has, or will have.
  abbrev pub number_of : FileScan → ℕ
  number_of st = if st.have_id then st.file_id else length st.index.files % 2 ^ 32

  -- The postings of a key in some lines behind line `n`.
  abbrev pub found : ℕ → ℕ → Bytes → List Bytes → List ℕ
  found fid n j [] = []
  found fid n j (raw ∷ lines) =
      let lineno = (n + 1) % 2 ^ 32 in
      let rest = found fid lineno j lines in
      if not (is_empty (trim raw)) && leb min_len (length (trim raw)) && equal (trim raw) j
      then pack fid lineno ∷ rest
      else rest

  pushed :
      (key j : Bytes) (p r : ℕ) (lines : List (Bytes × List ℕ))
      → p ≡ r
      → postings j (push_postings key (p ∷ []) lines)
        ≡ postings j lines ++ (if equal key j then r ∷ [] else [])
  pushed key j p r lines same =
      postings-push_postings key j (p ∷ []) lines ∙ elim (Bool-cases (equal key j)) [
        | inl g ↦ rw (g, same) refl
        | inr g ↦ rw g (sym (append-nil (postings j lines)))
      ]

  adds :
      (key j : Bytes) (n : ℕ) (st : FileScan)
      → st.lineno ≡ n
      → let next = add_posting key (ensure_id rel st) in
        (postings j next.index.lines
          ≡ postings j st.index.lines ++ (if equal key j then pack (number_of st) n ∷ [] else []))
        × (next.lineno ≡ n)
        × (number_of next ≡ number_of st)
  unfolding add_posting ensure_id
  adds key j n st e = elim (Bool-cases st.have_id) [
    | inl h ↦
        rw (ensure_id, h)
          (
            pushed key j (pack st.file_id st.lineno) (pack st.file_id n) st.index.lines
                (ap (pack st.file_id) e),
            e,
            refl,
          )
    | inr h ↦
        rw (ensure_id, h)
          (pushed key j _ _ st.index.lines (ap (pack (length st.index.files % 2 ^ 32)) e), e, refl)
  ]

  scan_line-found :
      (raw j : Bytes) (st : FileScan)
      → let next = scan_line min_len rel raw st in
        (postings j next.index.lines
          ≡ postings j st.index.lines ++ found (number_of st) st.lineno j (raw ∷ []))
        × (next.lineno ≡ (st.lineno + 1) % 2 ^ 32)
        × (number_of next ≡ number_of st)
  unfolding scan_line
  scan_line-found raw j st = elim (Bool-cases (is_empty (trim raw))) [
    | inl e ↦ rw (scan_line, e) (sym (append-nil (postings j st.index.lines)), refl, refl)
    | inr e ↦ elim (Bool-cases (ltb (length (trim raw)) min_len)) [
      | inl f ↦
          let short : leb min_len (length (trim raw)) ≡ false = ground arith in
          rw (scan_line, e, f, short) (sym (append-nil (postings j st.index.lines)), refl, refl)
      | inr f ↦
          let long : leb min_len (length (trim raw)) ≡ true = ground arith in
          rw (scan_line, e, f, long)
            (adds (trim raw) j ((st.lineno + 1) % 2 ^ 32)
              (record st {
                lineno = (st.lineno + 1) % 2 ^ 32;
                total = st.total + 1;
                nonempty = st.nonempty + 1;
              })
              refl)
    ]
  ]

  joined :
      (j raw : Bytes) (lines : List Bytes) (st : FileScan) (ps : List ℕ) (n fid : ℕ)
      → ps ≡ postings j st.index.lines ++ found (number_of st) st.lineno j (raw ∷ [])
      → n ≡ (st.lineno + 1) % 2 ^ 32
      → fid ≡ number_of st
      → ps ++ found fid n j lines
        ≡ postings j st.index.lines ++ found (number_of st) st.lineno j (raw ∷ lines)
  joined j raw lines st ps n fid here number id =
      rw (here, number, id)
        (append_assoc (postings j st.index.lines) _ _
          ∙ elim (Bool-cases (
              not (is_empty (trim raw)) && leb min_len (length (trim raw)) && equal (trim raw) j)) [
                | inl e ↦ rw e refl
                | inr e ↦ rw e refl
              ])

  scan_all-found :
      (lines : List Bytes) (j : Bytes) (st : FileScan)
      → postings j (scan_all lines st).index.lines
        ≡ postings j st.index.lines ++ found (number_of st) st.lineno j lines
  scan_all-found [] j st = sym (append-nil (postings j st.index.lines))
  scan_all-found (raw ∷ lines) j st =
      let (here, number, id) = scan_line-found raw j st in
      scan_all-found lines j (scan_line min_len rel raw st)
      ∙ joined j raw lines st _ _ _ here number id

  -- Reading a file adds to each key a posting for every line that is the key when it is trimmed, in the
  -- order of the lines, if it has `min_len` bytes at least, and no other.
  pub scan_bytes-found :
      (s j : Bytes) (st : FileScan)
      → postings j (scan_bytes min_len rel [] s st).index.lines
        ≡ postings j st.index.lines ++ found (number_of st) st.lineno j (file_lines s)
  scan_bytes-found s j st = rw (scan_bytes-lines [] s st) (scan_all-found (file_lines s) j st)
