-- ===== src/Indexer/Workers.antt =====
-- What a worker adds to its map, and what all of them have when the files are used up.
use phpatcher.Base.{
  ltb, leb, if◌then◌else◌, Bool-cases, Option-cases, Bytes, equal, equal_iff, length, is_empty, All,
  All-map, ℕ, zero, suc, ◌+◌, ◌%◌, ◌^◌, ◌≤◌, ◌<◌, Bool, true, false, not, ◌&&◌, List, [], ◌∷◌, ◌++◌,
  append-nil, append_assoc, inl, inr, Option, none, some, ◌≡◌, refl, sym, ap, ◌∙◌, arith,
}
use phpatcher.Dict.{lookup, lookup-assign, IsMap, assign-IsMap}
use phpatcher.Generator.{trim}
use phpatcher.IndexFile.{pack}
use phpatcher.IndexFile.Keys.{kept}
use phpatcher.Indexer.{
  push_postings, NormFile, WorkerResult, on_line, on_lines, process_file, at_worker, run_workers,
}
use phpatcher.Indexer.Counts.{num, num-append}
use phpatcher.Normalizer.{NormLine}

-- The postings of a key; none for a key that is missing.
abbrev pub or_nothing : Option (List ℕ) → List ℕ
or_nothing none = []
or_nothing (some ps) = ps

abbrev pub postings : Bytes → List (Bytes × List ℕ) → List ℕ
postings key lines = or_nothing (lookup key lines)

pub postings-push_postings :
    (key j : Bytes) (ps : List ℕ) (lines : List (Bytes × List ℕ))
    → postings j (push_postings key ps lines)
      ≡ (if equal key j then postings j lines ++ ps else postings j lines)
unfolding push_postings
postings-push_postings key j ps lines = elim (Option-cases (lookup key lines)) [
  | inl absent ↦
      rw (push_postings, absent)
        (ap or_nothing (lookup-assign key j ps lines) ∙ elim (Bool-cases (equal key j)) [
          | inl e ↦
              let here : lookup j lines ≡ none = rw ((equal_iff key j).0 e) at absent in
              rw e (ap (λ (o : Option (List ℕ)). or_nothing o ++ ps) (sym here))
          | inr e ↦ rw e refl
        ])
  | inr (old, there) ↦
      rw (push_postings, there)
        (ap or_nothing (lookup-assign key j (old ++ ps) lines) ∙ elim (Bool-cases (equal key j)) [
          | inl e ↦
              let here : lookup j lines ≡ some old = rw ((equal_iff key j).0 e) at there in
              rw e (ap (λ (o : Option (List ℕ)). or_nothing o ++ ps) (sym here))
          | inr e ↦ rw e refl
        ])
]

pub num-push_postings :
    (q : ℕ → Bool) (key j : Bytes) (ps : List ℕ) (lines : List (Bytes × List ℕ))
    → num q (postings j (push_postings key ps lines))
      ≡ num q (postings j lines) + (if equal key j then num q ps else 0)
num-push_postings q key j ps lines = elim (Bool-cases (equal key j)) [
  | inl e ↦ rw (postings-push_postings key j ps lines, e) (num-append q (postings j lines) ps)
  | inr e ↦ rw (postings-push_postings key j ps lines, e) (omega arith)
]

pub push_postings-IsMap :
    (key : Bytes) (ps : List ℕ) (lines : List (Bytes × List ℕ))
    → IsMap lines
    → IsMap (push_postings key ps lines)
unfolding push_postings
push_postings-IsMap key ps lines h = elim (Option-cases (lookup key lines)) [
  | inl e ↦ rw (push_postings, e) (assign-IsMap key ps lines h)
  | inr (old, e) ↦ rw (push_postings, e) (assign-IsMap key (old ++ ps) lines h)
]

abbrev pub AreMaps : List WorkerResult → Type 0
AreMaps = All (λ r. IsMap r.lines)

-- The postings of a key that all workers have.
abbrev pub total : (ℕ → Bool) → Bytes → List WorkerResult → ℕ
total q j [] = 0
total q j (r ∷ results) = num q (postings j r.lines) + total q j results

module _ (normalize : Bytes → List NormLine) (min_len : ℕ) where
  -- The postings of a key that the lines of a file add.
  abbrev pub line_postings : ℕ → ℕ → Bytes → List NormLine → List ℕ
  line_postings fid li j [] = []
  line_postings fid li j (l ∷ lines) =
      let rest = line_postings fid (li + 1) j lines in
      if not (is_empty l.key) && leb min_len (length (trim l.key)) && equal l.key j
      then pack fid ((li + 1) % 2 ^ 32) ∷ rest
      else rest

  -- And a file; none if it cannot be read.
  abbrev pub file_postings : ℕ → NormFile → Bytes → List ℕ
  file_postings i f j = elim f.content [
    | none ↦ []
    | some content ↦ line_postings (i % 2 ^ 32) 0 j (normalize content)
  ]

  on_line-postings :
      (fid li : ℕ) (j key : Bytes) (out : WorkerResult)
      → postings j (on_line min_len fid li key out).lines
        ≡ postings j out.lines
          ++ (if not (is_empty key) && leb min_len (length (trim key)) && equal key j
              then pack fid ((li + 1) % 2 ^ 32) ∷ []
              else [])
  unfolding on_line
  on_line-postings fid li j key out = elim (Bool-cases (is_empty key)) [
    | inl e ↦ rw (on_line, e) (sym (append-nil (postings j out.lines)))
    | inr e ↦ elim (Bool-cases (ltb (length (trim key)) min_len)) [
      | inl f ↦
          let short : leb min_len (length (trim key)) ≡ false = ground arith in
          rw (on_line, e, f, short) (sym (append-nil (postings j out.lines)))
      | inr f ↦
          let long : leb min_len (length (trim key)) ≡ true = ground arith in
          let p = pack fid ((li + 1) % 2 ^ 32) in
          rw (on_line, e, f, long)
            (postings-push_postings key j (p ∷ []) out.lines ∙ elim (Bool-cases (equal key j)) [
              | inl g ↦ rw g refl
              | inr g ↦ rw g (sym (append-nil (postings j out.lines)))
            ])
    ]
  ]

  on_lines-postings :
      (fid li : ℕ) (j : Bytes) (lines : List NormLine) (out : WorkerResult)
      → postings j (on_lines min_len fid li lines out).lines
        ≡ postings j out.lines ++ line_postings fid li j lines
  unfolding on_lines
  on_lines-postings fid li j [] out = sym (append-nil (postings j out.lines))
  on_lines-postings fid li j (l ∷ lines) out =
      on_lines-postings fid (li + 1) j lines (on_line min_len fid li l.key out)
      ∙ (ap (λ (t : List ℕ). t ++ line_postings fid (li + 1) j lines)
            (on_line-postings fid li j l.key out)
          ∙ (append_assoc (postings j out.lines) _ (line_postings fid (li + 1) j lines)
              ∙ elim (Bool-cases
                  (not (is_empty l.key) && leb min_len (length (trim l.key)) && equal l.key j)) [
                    | inl e ↦ rw e refl
                    | inr e ↦ rw e refl
                  ]))

  on_line-IsMap :
      (fid li : ℕ) (key : Bytes) (out : WorkerResult)
      → IsMap out.lines
      → IsMap (on_line min_len fid li key out).lines
  unfolding on_line
  on_line-IsMap fid li key out h = elim (Bool-cases (is_empty key)) [
    | inl e ↦ rw (on_line, e) h
    | inr e ↦ elim (Bool-cases (ltb (length (trim key)) min_len)) [
      | inl f ↦ rw (on_line, e, f) h
      | inr f ↦
          rw (on_line, e, f)
            (push_postings-IsMap key (pack fid ((li + 1) % 2 ^ 32) ∷ []) out.lines h)
    ]
  ]

  on_lines-IsMap :
      (fid li : ℕ) (lines : List NormLine) (out : WorkerResult)
      → IsMap out.lines
      → IsMap (on_lines min_len fid li lines out).lines
  unfolding on_lines
  on_lines-IsMap fid li [] out h = h
  on_lines-IsMap fid li (l ∷ lines) out h =
      on_lines-IsMap fid (li + 1) lines (on_line min_len fid li l.key out)
        (on_line-IsMap fid li l.key out h)

  process_file-postings :
      (i : ℕ) (f : NormFile) (j : Bytes) (out : WorkerResult)
      → postings j (process_file normalize min_len i f out).lines
        ≡ postings j out.lines ++ file_postings i f j
  unfolding process_file
  process_file-postings i f j out = elim (Option-cases f.content) [
    | inl e ↦ rw (process_file, e) (sym (append-nil (postings j out.lines)))
    | inr (content, e) ↦
        rw (process_file, e) (on_lines-postings (i % 2 ^ 32) 0 j (normalize content) out)
  ]

  process_file-IsMap :
      (i : ℕ) (f : NormFile) (out : WorkerResult)
      → IsMap out.lines
      → IsMap (process_file normalize min_len i f out).lines
  unfolding process_file
  process_file-IsMap i f out h = elim (Option-cases f.content) [
    | inl e ↦ rw (process_file, e) h
    | inr (content, e) ↦
        rw (process_file, e) (on_lines-IsMap (i % 2 ^ 32) 0 (normalize content) out h)
  ]

  at_worker-total :
      (q : ℕ → Bool) (j : Bytes) (w i : ℕ) (f : NormFile) (results : List WorkerResult)
      → w < length results
      → AreMaps results
      → (total q j (at_worker normalize min_len w i f results)
          ≡ total q j results + num q (file_postings i f j))
        × AreMaps (at_worker normalize min_len w i f results)
        × (length (at_worker normalize min_len w i f results) ≡ length results)
  unfolding at_worker
  at_worker-total q j w i f [] lt maps = absurd (omega arith)
  at_worker-total q j zero i f (r ∷ results) lt (m, maps) =
      let more = num-append q (postings j r.lines) (file_postings i f j) in
      let e : num q (postings j (process_file normalize min_len i f r).lines)
          ≡ num q (postings j r.lines) + num q (file_postings i f j) =
        ap (num q) (process_file-postings i f j r) ∙ more in
      (omega (arith, e), (process_file-IsMap i f r m, maps), refl)
  at_worker-total q j (suc w) i f (r ∷ results) lt (m, maps) =
      let (sum, kept, size) = at_worker-total q j w i f results (omega arith) maps in
      (omega arith, (m, kept), omega arith)

  -- What all files together add.
  abbrev pub files_total : (ℕ → Bool) → Bytes → ℕ → List NormFile → ℕ
  files_total q j i [] = 0
  files_total q j i (f ∷ files) = num q (file_postings i f j) + files_total q j (i + 1) files

  -- When the files are used up, the workers have what the files add, whoever did which.
  pub run_workers-total :
      (q : ℕ → Bool) (j : Bytes) (schedule : List ℕ) (i : ℕ) (files : List NormFile)
      (results : List WorkerResult)
      → All (λ w. w < length results) schedule
      → length files ≤ length schedule
      → AreMaps results
      → (total q j (run_workers normalize min_len schedule i files results)
          ≡ total q j results + files_total q j i files)
        × AreMaps (run_workers normalize min_len schedule i files results)
  unfolding run_workers
  run_workers-total q j [] i [] results _ _ maps = (omega arith, maps)
  run_workers-total q j [] i (f ∷ files) results _ enough maps = absurd (omega arith)
  run_workers-total q j (w ∷ schedule) i [] results _ _ maps = (omega arith, maps)
  run_workers-total q j (w ∷ schedule) i (f ∷ files) results (lt, ok_jobs) enough maps =
      let (sum, kept, size) = at_worker-total q j w i f results lt maps in
      let next = at_worker normalize min_len w i f results in
      let (rest, maps') =
        run_workers-total q j schedule (i + 1) files next
          (All-map (λ w'. w' < length results) (λ w'. w' < length next) schedule
            (λ w' h. omega arith) ok_jobs)
          (omega arith) kept in
      (omega arith, maps')
