-- ===== src/Tests/Matched.antt =====
-- A block of two lines of a corpus, matched.
use phpatcher.Base.{
  Bytes, codes, length, ◌+◌, ◌≤◌, true, false, [], ◌∷◌, inl, some, ◌≡◌, refl, arith,
}
use phpatcher.Generator.Added.{emit_added_corpus}
use phpatcher.Matcher.{Tally, match_keys, match_block, literal_lines}
use phpatcher.Matcher.Summary.{match_block-emit_added_corpus, match_block-literal_lines}
use phpatcher.Matcher.Written.{HasNoNul, written_of}
use phpatcher.Resolver.{split_corpus_lines}
use phpatcher.Text.Lines.{all_but}
use phpatcher.Tests.Added.{
  library, library_corpus, library_name, library_index, split_text, library_index-HasWords,
}

nul_free : (s : Bytes) → all_but 0 s ≡ true → HasNoNul s
unfolding all_but
nul_free [] _ = tt
nul_free (c ∷ s) h = ((λ e. ground arith), nul_free s (ground arith))

match_block-emit_added_corpus_example :
    written_of (
      match_block split_text
        (library_index false)
        library_corpus
        library_corpus
        library_name
        false
        2
        library)
    ≡ emit_added_corpus split_text
        (library_index false)
        library_corpus
        library_corpus
        library_name
        false
        2
        (split_corpus_lines library)
match_block-emit_added_corpus_example =
    match_block-emit_added_corpus split_text (library_index false) library_corpus library_corpus
      library_name false 2 library (inl refl)
      (unfold split_corpus_lines all_but in
        ((nul_free (codes "echo 1;") refl), ((nul_free (codes "echo 2;") refl), tt)))

match_block-literal_lines_example :
    (t : Tally) × (match_block split_text
        (library_index false)
        library_corpus
        library_corpus
        library_name
        false
        2
        library
      ≡ some t)
    × (t.covered ≤ length (split_corpus_lines library))
    × (t.refs ≤ t.covered)
    × (length t.written ≡ literal_lines (length (split_corpus_lines library)) t.covered + t.refs)
match_block-literal_lines_example =
    match_block-literal_lines split_text (library_index false) library_corpus library_corpus
      library_name false 2 library (library_index-HasWords false)
      (unfold match_keys split_corpus_lines in refl) (unfold split_corpus_lines in omega arith)
