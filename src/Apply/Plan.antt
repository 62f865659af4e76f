-- ===== src/Apply/Plan.antt =====
-- What the commands of a script stand for in the original file, and the script applied at once.
use phpatcher.Base.Results.{◌>>=◌}
use phpatcher.Base.{
  ltb, if◌then◌else◌, Bool-cases, Bytes, codes, length, take, drop, is_empty, take-take_append,
  drop-take_append, Result, ok, err, ℕ, ◌+◌, ◌-◌, ◌≤◌, ◌<◌, true, ◌||◌, List, [], ◌∷◌, ◌++◌, inl,
  inr, ◌≡◌, ap, fun_ext, arith,
}
use phpatcher.Apply.{RefResolver, build_input, validate_command_order, erase, insert_at, apply_kind}
use phpatcher.Apply.Splices.{Splice, splice, render}
use phpatcher.Ed.{Kind, delete, change, append, insert, EdCommand, FilePatch}
use phpatcher.Text.{split_lines, join_lines}

-- The range check of a command, in a file of `n` lines.
unfoldable pub check_range : Kind → EdCommand → ℕ → Result Bytes (Unit {0})
check_range delete c n =
    if ltb c.start 1 || ltb c.end c.start || ltb n c.end
    then err (codes "ed delete out of range")
    else ok tt
check_range change c n =
    if ltb c.start 1 || ltb c.end c.start || ltb n c.end
    then err (codes "ed change out of range")
    else ok tt
check_range append c n = if ltb n c.start then err (codes "ed append out of range") else ok tt
check_range insert c n =
    if ltb c.start 1 || ltb (n + 1) c.start then err (codes "ed insert out of range") else ok tt

unfoldable pub command_text : RefResolver → Kind → EdCommand → Result Bytes (List Bytes)
command_text resolve delete c = ok []
command_text resolve _ c = build_input resolve c.input

-- What a command stands for: lines of the original file that give way to a text.
unfoldable pub splice_of : Kind → EdCommand → List Bytes → Splice
splice_of delete c text = record { gap = c.start - 1; removed = c.end - (c.start - 1); text = text }
splice_of change c text = record { gap = c.start - 1; removed = c.end - (c.start - 1); text = text }
splice_of append c text = record { gap = c.start; removed = 0; text = text }
splice_of insert c text = record { gap = c.start - 1; removed = 0; text = text }

-- All commands, each checked against the `n` lines of the original, in order; the first error counts.
unfoldable pub plan : RefResolver → ℕ → List EdCommand → Result Bytes (List Splice)
plan resolve n [] = ok []
plan resolve n (c ∷ cs) = do
  _ ← check_range c.kind c n
  text ← command_text resolve c.kind c
  ps ← plan resolve n cs
  ok (splice_of c.kind c text ∷ ps)

-- The positions of a range that starts at line 1 or later.
range_end : (first last : ℕ) → 0 < first → first ≤ last → first - 1 + (last - (first - 1)) ≡ last
range_end first last h k = omega arith

insert_at-erase :
    (a e : ℕ) (ins lines : List Bytes)
    → a ≤ length lines
    → insert_at a ins (erase a e lines) ≡ take a lines ++ (ins ++ drop e lines)
insert_at-erase a e ins lines h =
    rw (take-take_append a lines (drop e lines) h, drop-take_append a lines (drop e lines) h)

-- One command of the code is its range check, its text, and its splice.
pub apply_kind-splice :
    (resolve : RefResolver) (k : Kind) (c : EdCommand) (lines : List Bytes)
    → apply_kind resolve k c lines ≡ (
        check_range k c (length lines) >>= λ _.
        command_text resolve k c >>= λ text. ok (splice (splice_of k c text) lines))
unfolding apply_kind check_range command_text splice_of
apply_kind-splice resolve delete c lines =
    elim (Bool-cases (ltb c.start 1 || ltb c.end c.start || ltb (length lines) c.end)) [
      | inl bad ↦ rw bad
      | inr good ↦ rw (good, range_end c.start c.end (ground arith) (ground arith))
    ]
apply_kind-splice resolve change c lines =
    elim (Bool-cases (ltb c.start 1 || ltb c.end c.start || ltb (length lines) c.end)) [
      | inl bad ↦ rw bad
      | inr good ↦
          rw (good, range_end c.start c.end (ground arith) (ground arith))
            (ap (λ (f : List Bytes → Result Bytes (List Bytes)). build_input resolve c.input >>= f)
              (fun_ext λ ins. ap ok (insert_at-erase (c.start - 1) c.end ins lines (ground arith))))
    ]
apply_kind-splice resolve append c lines = elim (Bool-cases (ltb (length lines) c.start)) [
  | inl bad ↦ rw bad
  | inr good ↦ let e : c.start + 0 ≡ c.start = omega arith in rw (good, e)
]
apply_kind-splice resolve insert c lines =
    elim (Bool-cases (ltb c.start 1 || ltb (length lines + 1) c.start)) [
      | inl bad ↦ rw bad
      | inr good ↦ let e : c.start - 1 + 0 ≡ c.start - 1 = omega arith in rw (good, e)
    ]

-- The script applied at once to the original lines.
unfoldable pub simultaneous : RefResolver → FilePatch → Bytes → Result Bytes Bytes
simultaneous resolve fp original = do
  _ ← validate_command_order fp
  ps ← plan resolve (length (split_lines original).0) fp.commands
  ok (
      join_lines (render ps (split_lines original).0)
        (if is_empty original then true else (split_lines original).1))
