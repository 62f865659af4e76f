-- ===== src/Generator/Texts.antt =====
-- The text of a bundle of tools/changes.cpp as a list of lines.
use phpatcher.Base.{
  ◌==◌, if◌then◌else◌, Bool-cases, Bytes, codes, is_empty, All, All-append, ℕ, true, List, [], ◌∷◌,
  ◌++◌, append_assoc, ◌≢◌, inl, inr, ◌≡◌, refl, sym, ap, ◌∙◌, arith,
}
use phpatcher.Generator.{
  Change, block_text, address, emit_newfile, Section, modified, added_file, emit_reversed,
  emit_section, emit_sections, emit_bundle,
}
use phpatcher.Generator.Blocks.{change_lines, terminated-append, emit_change-terminated}
use phpatcher.Generator.Commands.{last_line, Writable}
use phpatcher.Generator.Sections.{reversed_lines, WritableSection, section_lines}
use phpatcher.Number.Decimal.{IsDigit}
use phpatcher.Number.Print.{to_string, to_string-digits}
use phpatcher.Text.{newline}
use phpatcher.Text.Lines.{terminated, IsLine, all_but, all_but-IsLine}

abbrev pub all_lines : List Section → List Bytes
all_lines [] = []
all_lines (s ∷ ss) = section_lines s ++ all_lines ss

emit_reversed-terminated : (cs : List Change) → emit_reversed cs ≡ terminated (reversed_lines cs)
unfolding emit_reversed
emit_reversed-terminated [] = refl
emit_reversed-terminated (c ∷ cs) =
    rw (emit_reversed-terminated cs, emit_change-terminated c)
      (sym (terminated-append (reversed_lines cs) (change_lines c)))

emit_section-terminated : (s : Section) → emit_section s ≡ terminated (section_lines s)
unfolding emit_section emit_newfile block_text
emit_section-terminated (modified path []) = refl
emit_section-terminated (modified path (c ∷ cs)) =
    rw (emit_reversed-terminated (c ∷ cs))
      (sym (append_assoc (codes "# file: ") path (newline ∷ terminated (reversed_lines (c ∷ cs)))))
emit_section-terminated (added_file path lines) =
    rw (terminated-append lines (codes "." ∷ []))
      (sym (append_assoc (codes "# newfile: ") path (newline ∷ (terminated lines ++ codes ".\n"))))

emit_sections-terminated : (ss : List Section) → emit_sections ss ≡ terminated (all_lines ss)
unfolding emit_sections
emit_sections-terminated [] = refl
emit_sections-terminated (s ∷ ss) =
    rw (emit_section-terminated s, emit_sections-terminated ss)
      (sym (terminated-append (section_lines s) (all_lines ss)))

-- The two lines at the head.
abbrev pub magic : Bytes
magic = codes "# phpatcher-ed v1"

abbrev pub generated : Bytes → Bytes → Bytes
generated origin target =
    codes "# Generated by tools/phpatcher-changes from changes vs "
    ++ (origin ++ ((if is_empty target then [] else codes " to " ++ target) ++ codes "."))

four :
    (a b c d : Bytes)
    → (a ++ (b ++ (c ++ codes "."))) ++ newline ∷ d ≡ a ++ (b ++ (c ++ (codes ".\n" ++ d)))
four a b c d =
    append_assoc a (b ++ (c ++ codes ".")) (newline ∷ d)
    ∙ ap (λ (t : Bytes). a ++ t)
        (append_assoc b (c ++ codes ".") (newline ∷ d)
          ∙ ap (λ (t : Bytes). b ++ t) (append_assoc c (codes ".") (newline ∷ d)))

pub emit_bundle-terminated :
    (origin target : Bytes) (ss : List Section)
    → emit_bundle origin target ss ≡ terminated (magic ∷ generated origin target ∷ all_lines ss)
unfolding emit_bundle
emit_bundle-terminated origin target ss = rw (emit_sections-terminated ss) (
    ap (λ (t : Bytes). magic ++ newline ∷ t)
      (sym (
        four (codes "# Generated by tools/phpatcher-changes from changes vs ") origin
          (if is_empty target then [] else codes " to " ++ target) (terminated (all_lines ss)))))

-- No line has a newline inside.
pub IsDigit-IsLine : (ds : Bytes) → All IsDigit ds → IsLine ds
IsDigit-IsLine [] _ = tt
IsDigit-IsLine (d ∷ ds) (h, hs) = ((λ e. ground arith), IsDigit-IsLine ds hs)

pub number-IsLine : (n : ℕ) (rest : Bytes) → IsLine rest → IsLine (to_string n ++ rest)
number-IsLine n rest h =
    All-append (λ c. c ≢ newline) (to_string n) rest
      (IsDigit-IsLine (to_string n) (to_string-digits n).1) h

address-IsLine : (c : Change) (op : ℕ) → op ≢ newline → IsLine (address c ++ op ∷ [])
unfolding address
address-IsLine c op h = elim (Bool-cases (c.old_count == 1)) [
  | inl e ↦ rw e (number-IsLine c.old_start (op ∷ []) (h, tt))
  | inr e ↦
      rw (e, append_assoc (to_string c.old_start) (b',' ∷ to_string (last_line c)) (op ∷ []))
        (number-IsLine c.old_start (b',' ∷ (to_string (last_line c) ++ op ∷ []))
          ((λ d. ground arith), number-IsLine (last_line c) (op ∷ []) (h, tt)))
]

block-IsLine : (added : List Bytes) → All IsLine added → All IsLine (added ++ codes "." ∷ [])
block-IsLine added h = All-append IsLine added (codes "." ∷ []) h (((λ d. ground arith), tt), tt)

change_lines-IsLine : (c : Change) → Writable c → All IsLine (change_lines c)
change_lines-IsLine c w = elim (Bool-cases (c.old_count == 0)) [
  | inl e ↦ rw e (
    number-IsLine c.append_after (codes "a") ((λ d. ground arith), tt),
    block-IsLine c.added w.lines,
  )
  | inr e ↦ elim (Bool-cases (is_empty c.added)) [
    | inl f ↦ rw (e, f) (address-IsLine c b'd' (λ d. ground arith), tt)
    | inr f ↦ rw (e, f) (address-IsLine c b'c' (λ d. ground arith), block-IsLine c.added w.lines)
  ]
]

reversed_lines-IsLine : (cs : List Change) → All Writable cs → All IsLine (reversed_lines cs)
reversed_lines-IsLine [] _ = tt
reversed_lines-IsLine (c ∷ cs) (w, ws) =
    All-append IsLine (reversed_lines cs) (change_lines c) (reversed_lines-IsLine cs ws)
      (change_lines-IsLine c w)

-- A literal in front of a line.
text-IsLine : (s t : Bytes) → all_but newline s ≡ true → IsLine t → IsLine (s ++ t)
text-IsLine s t a h = All-append (λ c. c ≢ newline) s t (all_but-IsLine s a) h

section_lines-IsLine : (s : Section) → WritableSection s → All IsLine (section_lines s)
unfolding all_but
section_lines-IsLine (modified path []) _ = tt
section_lines-IsLine (modified path (c ∷ cs)) (h, ws) =
    (text-IsLine (codes "# file: ") path refl (h.line), reversed_lines-IsLine (c ∷ cs) ws)
section_lines-IsLine (added_file path lines) (h, ls, _) =
    (text-IsLine (codes "# newfile: ") path refl (h.line), block-IsLine lines ls)

pub all_lines-IsLine : (ss : List Section) → All WritableSection ss → All IsLine (all_lines ss)
all_lines-IsLine [] _ = tt
all_lines-IsLine (s ∷ ss) (h, hs) =
    All-append IsLine (section_lines s) (all_lines ss) (section_lines-IsLine s h)
      (all_lines-IsLine ss hs)

pub generated-IsLine :
    (origin target : Bytes) → IsLine origin → IsLine target → IsLine (generated origin target)
unfolding all_but
generated-IsLine origin target h k =
    text-IsLine (codes "# Generated by tools/phpatcher-changes from changes vs ") _ refl (
      All-append (λ c. c ≢ newline) origin _ h
        (All-append (λ c. c ≢ newline) (if is_empty target then [] else codes " to " ++ target)
          (codes ".")
          (elim (Bool-cases (is_empty target)) [
            | inl e ↦ rw e tt
            | inr e ↦ rw e (text-IsLine (codes " to ") target refl k)
          ])
          (all_but-IsLine (codes ".") refl)))
