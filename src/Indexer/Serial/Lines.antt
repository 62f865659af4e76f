-- ===== src/Indexer/Serial/Lines.antt =====
-- What a line of a file adds to a byte index.
use phpatcher.Base.{
  ltb, leb, if◌then◌else◌, Bool-cases, Bytes, equal, length, get_elem?, is_empty, length-append,
  All-append, All-map, ℕ, ◌+◌, ◌%◌, ◌^◌, ◌<◌, Bool, true, false, not, ◌&&◌, List, [], ◌∷◌, ◌++◌,
  append-nil, inl, inr, Option, some, ◌≡◌, refl, sym, ap, ◌∙◌, arith,
}
use phpatcher.Generator.{trim}
use phpatcher.IndexFile.{pack, posting_file}
use phpatcher.IndexFile.Postings.{posting-pack}
use phpatcher.Indexer.{FileScan, ensure_id, add_posting, scan_line}
use phpatcher.Indexer.Serial.Located.{
  locate, located, occurrences, InRange, get_elem?-length, locate-append, map-append,
}
use phpatcher.Indexer.Workers.{postings, postings-push_postings}
use phpatcher.Words.{IsU32}

-- While a file is read, behind the files before it: it has got its number, or none.
pub data Numbered (before : List Bytes) (rel : Bytes) (st : FileScan) : Type 0 where
  not_yet : st.have_id ≡ false → st.index.files ≡ before → Numbered before rel st
  numbered :
      st.have_id ≡ true
      → st.index.files ≡ before ++ rel ∷ []
      → st.file_id ≡ length before
      → Numbered before rel st

module _ (min_len : ℕ) (rel : Bytes) (before : List Bytes) (room : length before + 1 < 2 ^ 32) where
  -- What a line does.
  pub record Reads (st next : FileScan) (raw : Bytes) : Type 0 where
    pub number : Numbered before rel next
    pub line : next.lineno ≡ st.lineno + 1
    pub in_range : InRange next
    pub adds :
        (j : Bytes)
        → located j next ≡ located j st ++ occurrences min_len rel j st.lineno (raw ∷ [])

  -- The state with its number in place.
  record Placed (st : FileScan) : Type 0 where
    pub have : st.have_id ≡ true
    pub files : st.index.files ≡ before ++ rel ∷ []
    pub id : st.file_id ≡ length before

  ensure_id-Placed : (st : FileScan) → Numbered before rel st → Placed (ensure_id rel st)
  unfolding ensure_id
  ensure_id-Placed st (not_yet h e) =
      let small : length before % 2 ^ 32 ≡ length before = omega (arith, room) in
      rw (ensure_id, h)
        (record {
          have = refl;
          files = ap (λ (fs : List Bytes). fs ++ rel ∷ []) e;
          id = ap (λ (fs : List Bytes). length fs % 2 ^ 32) e ∙ small;
        })
  ensure_id-Placed st (numbered h e i) =
      rw (ensure_id, h) (record { have = refl; files = e; id = i })

  ensure_id-located :
      (st : FileScan) (j : Bytes) → InRange st → located j (ensure_id rel st) ≡ located j st
  unfolding ensure_id
  ensure_id-located st j r = elim (Bool-cases st.have_id) [
    | inl h ↦ rw (ensure_id, h) refl
    | inr h ↦
        rw (ensure_id, h)
          (locate-append st.index.files (rel ∷ []) (postings j st.index.lines) (r j))
  ]

  ensure_id-InRange : (st : FileScan) → InRange st → InRange (ensure_id rel st)
  unfolding ensure_id
  ensure_id-InRange st r j = elim (Bool-cases st.have_id) [
    | inl h ↦ rw (ensure_id, h) (r j)
    | inr h ↦
        rw (ensure_id, h)
          (All-map (λ p. posting_file p < length st.index.files)
            (λ p. posting_file p < length (st.index.files ++ rel ∷ [])) (postings j st.index.lines)
            (λ p lt. omega (arith, lt, length-append st.index.files (rel ∷ []))) (r j))
  ]

  named :
      (st : FileScan)
      → Placed st
      → IsU32 st.lineno
      → (locate st.index.files (pack st.file_id st.lineno) ≡ (some rel, st.lineno))
        × (posting_file (pack st.file_id st.lineno) < length st.index.files)
  named st p small =
      let fits : IsU32 st.file_id = omega (arith, p.id, room) in
      let (file, line) = posting-pack st.file_id st.lineno fits small in
      let there : get_elem? st.index.files (length before) ≡ some rel =
        rw (p.files) (get_elem?-length before rel) in
      (
        rw (file, line, p.id, there) refl,
        omega (
          arith,
          file,
          p.id,
          ap (λ (fs : List Bytes). length fs) (p.files),
          length-append before (rel ∷ []),
        ),
      )

  add_posting-located :
      (key j : Bytes) (st : FileScan)
      → Placed st
      → IsU32 st.lineno
      → located j (add_posting key st)
        ≡ located j st ++ (if equal key j then (some rel, st.lineno) ∷ [] else [])
  unfolding add_posting
  add_posting-located key j st p small =
      let (name, _) = named st p small in
      rw (postings-push_postings key j (pack st.file_id st.lineno ∷ []) st.index.lines)
        (elim (Bool-cases (equal key j)) [
          | inl e ↦ rw e (
              map-append (locate st.index.files) (postings j st.index.lines)
                (pack st.file_id st.lineno ∷ [])
              ∙ rw name refl)
          | inr e ↦ rw e (sym (append-nil (located j st)))
        ])

  add_posting-InRange :
      (key : Bytes) (st : FileScan)
      → Placed st
      → IsU32 st.lineno
      → InRange st
      → InRange (add_posting key st)
  unfolding add_posting
  add_posting-InRange key st p small r j =
      let (_, bound) = named st p small in
      rw (postings-push_postings key j (pack st.file_id st.lineno ∷ []) st.index.lines)
        (elim (Bool-cases (equal key j)) [
          | inl e ↦ rw e (
              All-append (λ q. posting_file q < length st.index.files) (postings j st.index.lines)
                (pack st.file_id st.lineno ∷ []) (r j) (bound, tt))
          | inr e ↦ rw e (r j)
        ])

  ensure_id-lineno : (st : FileScan) → (ensure_id rel st).lineno ≡ st.lineno
  unfolding ensure_id
  ensure_id-lineno st = elim (Bool-cases st.have_id) [
    | inl h ↦ rw (ensure_id, h) refl
    | inr h ↦ rw (ensure_id, h) refl
  ]

  -- Behind a newline, with the counts of the summary.
  abbrev counted : FileScan → ℕ → FileScan
  counted st filled = record st {
    lineno = (st.lineno + 1) % 2 ^ 32;
    total = st.total + 1;
    nonempty = filled;
  }

  counted-Numbered :
      (st : FileScan) (filled : ℕ)
      → Numbered before rel st
      → Numbered before rel (counted st filled)
  counted-Numbered st filled (not_yet h e) = not_yet h e
  counted-Numbered st filled (numbered h e i) = numbered h e i

  one_occurrence :
      (j raw : Bytes) (n : ℕ) (test : Bool)
      → (not (is_empty (trim raw)) && leb min_len (length (trim raw)) && equal (trim raw) j) ≡ test
      → occurrences min_len rel j n (raw ∷ []) ≡ (if test then (some rel, n + 1) ∷ [] else [])
  one_occurrence j raw n test e = ap (λ (b : Bool). if b then (some rel, n + 1) ∷ [] else []) e

  -- A line that is not indexed.
  skipped :
      (st : FileScan) (filled : ℕ) (raw : Bytes)
      → Numbered before rel st
      → InRange st
      → st.lineno + 1 < 2 ^ 32
      → ((j : Bytes)
          → (not (is_empty (trim raw)) && leb min_len (length (trim raw)) && equal (trim raw) j)
            ≡ false)
      → Reads st (counted st filled) raw
  skipped st filled raw n r small out = record {
    number = counted-Numbered st filled n;
    line = omega (arith, small);
    in_range = r;
    adds = λ j.
        sym (append-nil (located j st))
        ∙ ap (λ (t : List (Option Bytes × ℕ)). located j st ++ t)
            (sym (one_occurrence j raw st.lineno false (out j)));
  }

  indexed_line :
      (st : FileScan) (filled : ℕ) (raw : Bytes)
      → Numbered before rel st
      → InRange st
      → st.lineno + 1 < 2 ^ 32
      → ((j : Bytes)
          → (not (is_empty (trim raw)) && leb min_len (length (trim raw)) && equal (trim raw) j)
            ≡ equal (trim raw) j)
      → Reads st (add_posting (trim raw) (ensure_id rel (counted st filled))) raw
  unfolding add_posting
  indexed_line st filled raw n r small out =
      let st' = counted st filled in
      let placed = ensure_id-Placed st' (counted-Numbered st filled n) in
      let same : (ensure_id rel st').lineno ≡ st.lineno + 1 =
        omega (arith, ensure_id-lineno st', small) in
      let fits : IsU32 (ensure_id rel st').lineno = omega (arith, same, small) in
      record {
        number = numbered (placed.have) (placed.files) (placed.id);
        line = same;
        in_range =
            add_posting-InRange (trim raw) (ensure_id rel st') placed fits
              (ensure_id-InRange st' r);
        adds = λ j.
            add_posting-located (trim raw) j (ensure_id rel st') placed fits
            ∙ rw (ensure_id-located st' j r, same)
                (ap (λ (t : List (Option Bytes × ℕ)). located j st ++ t)
                  (sym (one_occurrence j raw st.lineno (equal (trim raw) j) (out j))));
      }

  pub scan_line-Reads :
      (raw : Bytes) (st : FileScan)
      → Numbered before rel st
      → InRange st
      → st.lineno + 1 < 2 ^ 32
      → Reads st (scan_line min_len rel raw st) raw
  unfolding scan_line
  scan_line-Reads raw st n r small = elim (Bool-cases (is_empty (trim raw))) [
    | inl e ↦ rw (scan_line, e) (skipped st st.nonempty raw n r small λ j. rw e refl)
    | inr e ↦ elim (Bool-cases (ltb (length (trim raw)) min_len)) [
      | inl f ↦
          let short : leb min_len (length (trim raw)) ≡ false = ground arith in
          rw (scan_line, e, f) (skipped st (st.nonempty + 1) raw n r small λ j. rw (e, short) refl)
      | inr f ↦
          let long : leb min_len (length (trim raw)) ≡ true = ground arith in
          rw (scan_line, e, f)
            (indexed_line st (st.nonempty + 1) raw n r small λ j. rw (e, long) refl)
    ]
  ]
