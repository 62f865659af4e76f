-- ===== src/IndexFile/Cut.antt =====
-- Index files that break off.
use phpatcher.Base.Results.{◌>>=◌}
use phpatcher.Base.{
  ltb, leb, ◌==◌, Bool-cases, Bytes, equal, length, length-append, take-append_le, drop-append_le,
  Result, ok, err, ℕ, zero, suc, ◌≤◌, false, not, ◌&&◌, List, [], ◌∷◌, ◌++◌, inl, inr, ◌≡◌, refl,
  arith,
}
use phpatcher.IndexFile.{
  Index, IndexOptions, index_magic, write_index, Posting, LoadError, truncated, bad_magic,
  bad_version, Reader, need, u16, u32, load_files, load_postings, emplace, load_keys, load_magic,
  load_flags, load_tables, load,
}
use phpatcher.IndexFile.RoundTrip.{loaded_index, FitsFile, load-write_index}

module _ {A : Type 0} where
  -- What a reader answers when more bytes follow: what it answered, unless it ran out of bytes.
  abbrev Extends : Result LoadError (A × Bytes) → Result LoadError (A × Bytes) → Bytes → Type 0
  Extends (ok (a, p)) r more = r ≡ ok (a, p ++ more)
  Extends (err truncated) r more = Unit
  Extends (err bad_magic) r more = r ≡ err bad_magic
  Extends (err (bad_version v)) r more = r ≡ err (bad_version v)

  abbrev Grows : Reader A → Type 0
  Grows f = (p more : Bytes) → Extends (f p) (f (p ++ more)) more

  Extends-cut :
      (r : Result LoadError (A × Bytes)) (a : A) (x : ℕ) (back : Bytes)
      → Extends r (ok (a, [])) (x ∷ back)
      → r ≡ err truncated
  Extends-cut (ok (b, [])) a x back e = cc
  Extends-cut (ok (b, y ∷ p)) a x back e = cc
  Extends-cut (err truncated) a x back e = refl
  Extends-cut (err bad_magic) a x back e = cc
  Extends-cut (err (bad_version v)) a x back e = cc

module _ {A B : Type 0} where
  Extends-bind :
      (m m' : Result LoadError (A × Bytes)) (more : Bytes)
      (next : A × Bytes → Result LoadError (B × Bytes))
      → Extends m m' more
      → ((a : A) (p : Bytes) → Extends (next (a, p)) (next (a, p ++ more)) more)
      → Extends (m >>= next) (m' >>= next) more
  Extends-bind (ok (a, p)) m' more next e then_grows = rw e (then_grows a p)
  Extends-bind (err truncated) m' more next e then_grows = tt
  Extends-bind (err bad_magic) m' more next e then_grows = rw e refl
  Extends-bind (err (bad_version v)) m' more next e then_grows = rw e refl

need-Grows : (n : ℕ) → Grows (need n)
unfolding need
need-Grows n p more = elim (Bool-cases (ltb (length p) n)) [
  | inl short ↦ rw short tt
  | inr long ↦
      let fits : n ≤ length p = ground arith in
      let test : ltb (length (p ++ more)) n ≡ false = ground (arith, length-append p more) in
      rw (long, test, take-append_le n p more fits, drop-append_le n p more fits) refl
]

u16-Grows : Grows u16
unfolding u16
u16-Grows p more =
    Extends-bind (need 2 p) (need 2 (p ++ more)) more _ (need-Grows 2 p more) λ a p'. refl

u32-Grows : Grows u32
unfolding u32
u32-Grows p more =
    Extends-bind (need 4 p) (need 4 (p ++ more)) more _ (need-Grows 4 p more) λ a p'. refl

load_files-Grows : (n : ℕ) → Grows (load_files n)
unfolding load_files
load_files-Grows zero p more = refl
load_files-Grows (suc n) p more =
    Extends-bind (u16 p) (u16 (p ++ more)) more _ (u16-Grows p more) λ len p1.
      Extends-bind (need len p1) (need len (p1 ++ more)) more _ (need-Grows len p1 more) λ path p2.
        Extends-bind (load_files n p2) (load_files n (p2 ++ more)) more _
          (load_files-Grows n p2 more) λ files p3. refl

load_postings-Grows : (n : ℕ) → Grows (load_postings n)
unfolding load_postings
load_postings-Grows zero p more = refl
load_postings-Grows (suc n) p more =
    Extends-bind (u32 p) (u32 (p ++ more)) more _ (u32-Grows p more) λ file_id p1.
      Extends-bind (u32 p1) (u32 (p1 ++ more)) more _ (u32-Grows p1 more) λ lineno p2.
        Extends-bind (load_postings n p2) (load_postings n (p2 ++ more)) more _
          (load_postings-Grows n p2 more) λ postings p3. refl

load_keys-Grows : (n : ℕ) (lines : List (Bytes × List Posting)) → Grows (load_keys n lines)
unfolding load_keys
load_keys-Grows zero lines p more = refl
load_keys-Grows (suc n) lines p more =
    Extends-bind (u32 p) (u32 (p ++ more)) more _ (u32-Grows p more) λ klen p1.
      Extends-bind (need klen p1) (need klen (p1 ++ more)) more _ (need-Grows klen p1 more)
        λ key p2. Extends-bind (u32 p2) (u32 (p2 ++ more)) more _ (u32-Grows p2 more) λ count p3.
          Extends-bind (load_postings count p3) (load_postings count (p3 ++ more)) more _
            (load_postings-Grows count p3 more)
            λ postings p4. load_keys-Grows n (emplace key postings lines) p4 more

load_magic-Grows : Grows load_magic
unfolding load_magic
load_magic-Grows p more =
    Extends-bind (need 4 p) (need 4 (p ++ more)) more _ (need-Grows 4 p more) λ bytes p'.
      elim (Bool-cases (equal bytes index_magic)) [ inl e ↦ rw e refl | inr e ↦ rw e refl ]

load_flags-Grows : (version : ℕ) → Grows (load_flags version)
unfolding load_flags
load_flags-Grows version p more = elim (Bool-cases (not (version == 1) && not (version == 2))) [
  | inl e ↦ rw e refl
  | inr e ↦ elim (Bool-cases (leb 2 version)) [
    | inl f ↦ rw (e, f) (u32-Grows p more)
    | inr f ↦ rw (e, f) refl
  ]
]

load_tables-Grows : (flags : ℕ) → Grows (load_tables flags)
unfolding load_tables
load_tables-Grows flags p more =
    Extends-bind (u32 p) (u32 (p ++ more)) more _ (u32-Grows p more) λ _ p1.
      Extends-bind (u32 p1) (u32 (p1 ++ more)) more _ (u32-Grows p1 more) λ _ p2.
        Extends-bind (u32 p2) (u32 (p2 ++ more)) more _ (u32-Grows p2 more) λ file_count p3.
          Extends-bind (load_files file_count p3) (load_files file_count (p3 ++ more)) more _
            (load_files-Grows file_count p3 more)
            λ files p4.
              Extends-bind (u32 p4) (u32 (p4 ++ more)) more _ (u32-Grows p4 more) λ key_count p5.
                Extends-bind (load_keys key_count [] p5) (load_keys key_count [] (p5 ++ more)) more
                  _ (load_keys-Grows key_count [] p5 more) λ lines p6. refl

load-Grows : Grows load
unfolding load
load-Grows p more =
    Extends-bind (load_magic p) (load_magic (p ++ more)) more _ (load_magic-Grows p more) λ _ p1.
      Extends-bind (u32 p1) (u32 (p1 ++ more)) more _ (u32-Grows p1 more) λ version p2.
        Extends-bind (load_flags version p2) (load_flags version (p2 ++ more)) more _
          (load_flags-Grows version p2 more) λ flags p3. load_tables-Grows flags p3 more

-- A file of the writer that breaks off anywhere is refused as truncated.
pub load_cut :
    (opt : IndexOptions) (idx : Index) (front : Bytes) (x : ℕ) (back : Bytes)
    → FitsFile idx
    → (write_index opt idx).buf ≡ front ++ x ∷ back
    → load front ≡ err truncated
load_cut opt idx front x back fits e =
    let whole : load (front ++ x ∷ back) ≡ ok (loaded_index opt idx, []) =
      rw e at (load-write_index opt idx fits) in
    Extends-cut (load front) (loaded_index opt idx) x back
      (rw whole at (load-Grows front (x ∷ back)))
