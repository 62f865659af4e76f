-- ===== src/IndexFile/Layout.antt =====
-- What the reader finds in the pieces that the writer puts into the buffer.
use phpatcher.Base.{
  ltb, Bytes, length, length-append, take-length, drop-length, All, ok, ℕ, ◌%◌, ◌^◌, false, List,
  [], ◌∷◌, ◌++◌, map, append_assoc, ◌≡◌, refl, ap, arith,
}
use phpatcher.IndexFile.{
  posting_file, posting_line, put_files, put_postings, Posting, need, word, u16, u32, load_files,
  load_postings,
}
use phpatcher.IndexFile.Postings.{posting_file-IsU32, posting_line-IsU32}
use phpatcher.Words.{IsU16, IsU32, put_u16, put_u32}

pub need-append : (n : ℕ) (xs rest : Bytes) → n ≡ length xs → need n (xs ++ rest) ≡ ok (xs, rest)
unfolding need
need-append n xs rest e =
    let test : ltb (length (xs ++ rest)) (length xs) ≡ false =
      ground (arith, length-append xs rest) in
    rw (e, test, take-length xs rest, drop-length xs rest) refl

pub u32-put_u32 : (v : ℕ) (rest : Bytes) → IsU32 v → u32 (put_u32 v ++ rest) ≡ ok (v, rest)
unfolding u32 put_u32 word
u32-put_u32 v rest fits =
    rw (need-append 4 (put_u32 v) rest refl) (ap (λ (n : ℕ). ok (n, rest)) (omega arith))

u16-put_u16 : (v : ℕ) (rest : Bytes) → IsU16 v → u16 (put_u16 v ++ rest) ≡ ok (v, rest)
unfolding u16 put_u16 word
u16-put_u16 v rest fits =
    rw (need-append 2 (put_u16 v) rest refl) (ap (λ (n : ℕ). ok (n, rest)) (omega arith))

pub load_files-put_files :
    (files : List Bytes) (rest : Bytes)
    → All (λ p. IsU16 (length p)) files
    → load_files (length files) (put_files files ++ rest) ≡ ok (files, rest)
unfolding load_files put_files
load_files-put_files [] rest _ = refl
load_files-put_files (p ∷ files) rest (fits, more) =
    let small : length p % 2 ^ 16 ≡ length p = omega arith in
    rw
      (
        small,
        append_assoc (put_u16 (length p)) (p ++ put_files files) rest,
        u16-put_u16 (length p) ((p ++ put_files files) ++ rest) fits,
        append_assoc p (put_files files) rest,
        need-append (length p) p (put_files files ++ rest) refl,
        load_files-put_files files rest more,
      )
      refl

abbrev pub unpack : ℕ → Posting
unpack p = record { file_id = posting_file p; lineno = posting_line p }

pub load_postings-put_postings :
    (ps : List ℕ) (rest : Bytes)
    → load_postings (length ps) (put_postings ps ++ rest) ≡ ok (map unpack ps, rest)
unfolding load_postings put_postings
load_postings-put_postings [] rest = refl
load_postings-put_postings (p ∷ ps) rest =
    let line = put_u32 (posting_line p) in
    rw
      (
        append_assoc (put_u32 (posting_file p)) (line ++ put_postings ps) rest,
        u32-put_u32 (posting_file p) ((line ++ put_postings ps) ++ rest) (posting_file-IsU32 p),
        append_assoc line (put_postings ps) rest,
        u32-put_u32 (posting_line p) (put_postings ps ++ rest) (posting_line-IsU32 p),
        load_postings-put_postings ps rest,
      )
      refl
