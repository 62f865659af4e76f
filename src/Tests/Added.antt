-- ===== src/Tests/Added.antt =====
-- The theorems on added lines that refer to a corpus.
use phpatcher.Base.{
  Bool-cases, Bytes, codes, equal, length, All, ok, ℕ, ◌+◌, ◌^◌, ◌<◌, Bool, true, false, List, [],
  ◌∷◌, map, inl, inr, some, ◌≡◌, refl, subst, arith,
}
use phpatcher.Apply.{build_input}
use phpatcher.Collector.Placed.{Plain}
use phpatcher.Dict.{lookup}
use phpatcher.Directive.{parse_r_directive, parse_ed_input_piece}
use phpatcher.Generator.{Corpus, corpus_line, quote_ed, trim_pad_for, emit_ref}
use phpatcher.Generator.Added.{normalize_block_keys, rewrapped_line, block_keys, emit_added_corpus}
use phpatcher.Generator.Added.Blocks.{
  HasWords, emit_added_corpus-build_input, emit_added_corpus-Rewrapped,
}
use phpatcher.Generator.Added.Ranges.{IsServed}
use phpatcher.Generator.Added.Reading.{AllPairs}
use phpatcher.Generator.Added.Rewrapped.{Rewrapped}
use phpatcher.IndexFile.{Loaded, find_postings}
use phpatcher.Normalizer.{NormLine}
use phpatcher.Number.Print.{to_string}
use phpatcher.Resolver.{Disk, split_corpus_lines, resolve_ref}
use phpatcher.Text.{after_prefix}
use phpatcher.Words.{IsU32}

abbrev pub library : Bytes
library = codes "echo 1;\necho 2;\n"

abbrev pub library_disk : Disk
library_disk path = some library

abbrev pub library_lines : List Bytes
library_lines = codes "echo 1;" ∷ codes "echo 2;" ∷ []

abbrev pub library_corpus : Corpus
library_corpus id = some library_lines

abbrev pub library_name : ℕ → Bytes
library_name id = codes "lib.php"

pub library_served :
    (f : ℕ) (lines : List Bytes)
    → library_corpus f ≡ some lines
    → IsServed library_disk (codes "/p") (library_name f) lines
unfolding split_corpus_lines
library_served f lines e =
    let same : library_lines ≡ lines = cc in
    subst (IsServed library_disk (codes "/p") (codes "lib.php")) same (record {
      content = library;
      readable = refl;
      split = refl;
      small = omega arith;
      fits = omega arith;
    })

library_keys : (f : ℕ) (keys : List Bytes) → library_corpus f ≡ some keys → length keys + 1 < 2 ^ 32
library_keys f keys e =
    let same : library_lines ≡ keys = cc in
    subst (λ (t : List Bytes). length t + 1 < 2 ^ 32) same (omega arith)

abbrev pub library_index : Bool → Loaded
library_index normalized = record {
  files = codes "lib.php" ∷ [];
  lines = (codes "echo 1;", record { file_id = 0; lineno = 1 } ∷ []) ∷ [];
  normalized = normalized;
}

pub library_index-HasWords : (normalized : Bool) → HasWords (library_index normalized)
unfolding find_postings lookup
library_index-HasWords normalized key post e = elim (Bool-cases (equal (codes "echo 1;") key)) [
  | inl g ↦
      let same : record { file_id = 0; lineno = 1 } ∷ [] ≡ post = cc (rw g at e) in
      subst (All (λ pp. IsU32 pp.lineno)) same (omega arith, tt)
  | inr g ↦ cc (rw g at e)
]

abbrev pub split_text : Bytes → List NormLine
split_text content =
    record { flag = 0; key = codes "<?php" }
    ∷ record { flag = 0; key = codes "echo 1;" }
    ∷ record { flag = 0; key = codes "echo 2;" }
    ∷ []

pub library_lines-Plain : All Plain library_lines
unfolding parse_ed_input_piece parse_r_directive after_prefix
library_lines-Plain = (refl, (refl, tt))

emit_added_corpus-build_input_example :
    (written : List Bytes) × (emit_added_corpus split_text
        (library_index false)
        library_corpus
        library_corpus
        library_name
        false
        2
        library_lines
      ≡ some written)
    × (build_input (some (resolve_ref library_disk (codes "/p"))) (map parse_ed_input_piece written)
        ≡ ok library_lines)
emit_added_corpus-build_input_example =
    emit_added_corpus-build_input library_disk (codes "/p") split_text (library_index false)
      library_corpus library_corpus library_name false 2 library_lines library_served
      (library_index-HasWords false) library_lines-Plain refl

emit_added_corpus-Rewrapped_example :
    (written : List Bytes) × (lines : List Bytes) × (emit_added_corpus split_text
        (library_index true)
        library_corpus
        library_corpus
        library_name
        false
        2
        library_lines
      ≡ some written)
    × (build_input (some (resolve_ref library_disk (codes "/p"))) (map parse_ed_input_piece written)
        ≡ ok lines)
    × AllPairs
        (Rewrapped library_disk
          (codes "/p")
          library_corpus
          library_corpus
          library_name
          false
          library_served
          library_keys
          library_lines
          (block_keys split_text
            (library_index true)
            library_corpus
            library_corpus
            library_name
            false
            2
            library_lines)
          library_lines-Plain)
        library_lines
        lines
unfolding block_keys normalize_block_keys
emit_added_corpus-Rewrapped_example =
    emit_added_corpus-Rewrapped library_disk (codes "/p") split_text (library_index true)
      library_corpus library_corpus library_name false 2 library_lines library_served
      (library_index-HasWords true) library_lines-Plain library_keys refl refl

-- A line whose core has other bytes than that of the line of the corpus is a reference all the same.
other_spacing :
    rewrapped_line library_corpus library_name false (codes "  echo  1;" ∷ []) 0 0 1
    ≡ codes "r \"lib.php\" 1 1 \"  \" \"\" # s:8"
unfolding rewrapped_line corpus_line trim_pad_for emit_ref quote_ed to_string
other_spacing = refl
