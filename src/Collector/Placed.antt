-- ===== src/Collector/Placed.antt =====
-- The change that puts lines in the place of others, and what its command does.
use phpatcher.Base.{
  ltb, ◌==◌, if◌then◌else◌, Bytes, length, is_empty, length-append, take-length, drop-length, All,
  ok, ℕ, ◌+◌, ◌-◌, ◌<◌, false, ◌||◌, List, [], ◌∷◌, ◌++◌, map, append_assoc, ◌≡◌, refl, sym, arith,
}
use phpatcher.Apply.{RefResolver, build_input, addressed_top, affected_low, erase, apply_kind}
use phpatcher.Directive.{parse_ed_input_piece}
use phpatcher.Ed.{literal, delete, change}
use phpatcher.Generator.{Change}
use phpatcher.Generator.Commands.{command_for}

-- An added line that the patcher takes as it stands.
abbrev pub Plain : Bytes → Type 0
Plain l = parse_ed_input_piece l ≡ literal l

pub build_input-Plain :
    (resolve : RefResolver) (added : List Bytes)
    → All Plain added
    → build_input resolve (map parse_ed_input_piece added) ≡ ok added
unfolding build_input
build_input-Plain resolve [] _ = refl
build_input-Plain resolve (l ∷ added) (p, ps) = rw (p, build_input-Plain resolve added ps) refl

-- The change that stands for `removed` lines behind the first `n` and `added` ones in their place.
abbrev pub change_at : ℕ → List Bytes → List Bytes → Change
change_at n removed added = record {
  old_start = if is_empty removed then 0 else n + 1;
  old_count = length removed;
  append_after = n;
  added = added;
}

-- It takes away a range, or puts new lines in its place.
command_for-delete :
    (n : ℕ) (x : Bytes) (removed : List Bytes)
    → command_for (change_at n (x ∷ removed) [])
      ≡ record { kind = delete; start = n + 1; end = n + length (x ∷ removed); input = [] }
command_for-delete n x removed =
    let some_lines : (length (x ∷ removed) == 0) ≡ false = ground arith in
    let e : n + 1 + length (x ∷ removed) - 1 ≡ n + length (x ∷ removed) = omega arith in
    rw (some_lines, e) refl

command_for-change :
    (n : ℕ) (x y : Bytes) (removed added : List Bytes)
    → command_for (change_at n (x ∷ removed) (y ∷ added)) ≡ record {
      kind = change;
      start = n + 1;
      end = n + length (x ∷ removed);
      input = map parse_ed_input_piece (y ∷ added);
    }
command_for-change n x y removed added =
    let some_lines : (length (x ∷ removed) == 0) ≡ false = ground arith in
    let e : n + 1 + length (x ∷ removed) - 1 ≡ n + length (x ∷ removed) = omega arith in
    rw (some_lines, e) refl

erase-middle :
    (pre removed rest : List Bytes)
    → erase (length pre + 1 - 1) (length pre + length removed) (pre ++ (removed ++ rest))
      ≡ pre ++ rest
erase-middle pre removed rest =
    let s : length pre + 1 - 1 ≡ length pre = omega arith in
    rw
      (
        s,
        take-length pre (removed ++ rest),
        sym (length-append pre removed),
        sym (append_assoc pre removed rest),
        drop-length (pre ++ removed) rest,
      )
      refl

-- The test on the range passes.
in_range :
    (pre removed rest : List Bytes)
    → 0 < length removed
    → (ltb (length pre + 1) 1
        || ltb (length pre + length removed) (length pre + 1)
        || ltb (length (pre ++ (removed ++ rest))) (length pre + length removed))
      ≡ false
in_range pre removed rest h =
    ground (arith, length-append pre (removed ++ rest), length-append removed rest)

-- Its command makes just this edit.
pub apply_change_at :
    (resolve : RefResolver) (pre removed added rest : List Bytes)
    → All Plain added
    → let c = command_for (change_at (length pre) removed added) in
      apply_kind resolve c.kind c (pre ++ (removed ++ rest)) ≡ ok (pre ++ (added ++ rest))
unfolding apply_kind
apply_change_at resolve pre [] added rest plain =
    let test : ltb (length (pre ++ rest)) (length pre) ≡ false =
      ground (arith, length-append pre rest) in
    rw (test, build_input-Plain resolve added plain, take-length pre rest, drop-length pre rest)
      refl
apply_change_at resolve pre (x ∷ removed) [] rest plain =
    rw
      (
        command_for-delete (length pre) x removed,
        in_range pre (x ∷ removed) rest (omega arith),
        erase-middle pre (x ∷ removed) rest,
      )
      refl
apply_change_at resolve pre (x ∷ removed) (y ∷ added) rest plain =
    let s : length pre + 1 - 1 ≡ length pre = omega arith in
    rw
      (
        command_for-change (length pre) x y removed added,
        in_range pre (x ∷ removed) rest (omega arith),
        build_input-Plain resolve (y ∷ added) plain,
        erase-middle pre (x ∷ removed) rest,
        s,
        take-length pre rest,
        drop-length pre rest,
      )
      refl

-- Its command touches these lines.
pub change_at-top :
    (n : ℕ) (removed added : List Bytes)
    → let c = command_for (change_at n removed added) in addressed_top c.kind c ≡ n + length removed
unfolding addressed_top
change_at-top n [] added = omega arith
change_at-top n (x ∷ removed) [] = rw (command_for-delete n x removed) refl
change_at-top n (x ∷ removed) (y ∷ added) = rw (command_for-change n x y removed added) refl

pub change_at-low :
    (n : ℕ) (removed added : List Bytes)
    → let c = command_for (change_at n removed added) in affected_low c.kind c ≡ n + 1
unfolding affected_low
change_at-low n [] added = refl
change_at-low n (x ∷ removed) [] = rw (command_for-delete n x removed) refl
change_at-low n (x ∷ removed) (y ∷ added) = rw (command_for-change n x y removed added) refl
