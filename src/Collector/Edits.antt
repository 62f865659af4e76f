-- ===== src/Collector/Edits.antt =====
-- The script of a list of changes, where they stand for an edit of the lines behind a position.
use phpatcher.Base.Results.{◌>>=◌}
use phpatcher.Base.{
  leb, Bool-cases, Bytes, length, length-append, All, All-append, Result, ok, bind_assoc, ℕ, ◌+◌,
  ◌≤◌, ◌<◌, min, List, [], ◌∷◌, ◌++◌, append_assoc, inl, inr, ◌≡◌, refl, sym, ap, fun_ext, ◌∙◌,
  arith,
}
use phpatcher.Apply.{
  RefResolver, addressed_top, affected_low, check_order, apply_kind, apply_commands,
}
use phpatcher.Collector.Placed.{Plain, change_at, apply_change_at, change_at-top, change_at-low}
use phpatcher.Ed.{EdCommand}
use phpatcher.Generator.{Change}
use phpatcher.Generator.Commands.{command_for}
use phpatcher.Generator.Sections.{commands_for}
use phpatcher.Hooks.{resolve}

-- Behind the first `n` lines, the changes turn `old` into `new`; and the check of the order passes.
pub record Edits (n : ℕ) (cs : List Change) (old new : List Bytes) : Type 0 where
  pub applies :
      (resolve : RefResolver) (pre : List Bytes)
      → length pre ≡ n
      → apply_commands resolve (commands_for cs) (pre ++ old) ≡ ok (pre ++ new)
  pub low : All (λ c. n < affected_low c.kind c) (commands_for cs)
  pub plain : All (λ c. All Plain c.added) cs
  pub ordered :
      (barrier : ℕ) → n + length old < barrier → check_order barrier (commands_for cs) ≡ ok tt

pub Edits-nothing : (n : ℕ) (ls : List Bytes) → Edits n [] ls ls
unfolding apply_commands check_order
Edits-nothing n ls = record {
  applies = λ resolve pre e. refl;
  low = tt;
  plain = tt;
  ordered = λ barrier h. refl;
}

weaken :
    (m n : ℕ) (cs : List EdCommand)
    → m ≤ n
    → All (λ c. n < affected_low c.kind c) cs
    → All (λ c. m < affected_low c.kind c) cs
weaken m n [] h _ = tt
weaken m n (c ∷ cs) h (p, ps) = (omega (arith, p), weaken m n cs h ps)

-- The same edit behind fewer lines.
pub Edits-keep :
    (n : ℕ) (same : List Bytes) (cs : List Change) (old new : List Bytes)
    → Edits (n + length same) cs old new
    → Edits n cs (same ++ old) (same ++ new)
Edits-keep n same cs old new e = record {
  applies = λ resolve pre len.
      let longer : length (pre ++ same) ≡ n + length same =
        omega (arith, len, length-append pre same) in
      rw (sym (append_assoc pre same old), sym (append_assoc pre same new))
        (e.applies resolve (pre ++ same) longer);
  low = weaken n (n + length same) (commands_for cs) (omega arith) (e.low);
  plain = e.plain;
  ordered = λ barrier h. e.ordered barrier (omega (arith, h, length-append same old));
}

apply_commands-append :
    (resolve : RefResolver) (xs ys : List EdCommand) (ls : List Bytes)
    → apply_commands resolve (xs ++ ys) ls
      ≡ apply_commands resolve xs ls >>= apply_commands resolve ys
unfolding apply_commands
apply_commands-append resolve [] ys ls = refl
apply_commands-append resolve (x ∷ xs) ys ls =
    ap (λ (k : List Bytes → Result Bytes (List Bytes)). apply_kind resolve x.kind x ls >>= k)
      (fun_ext (apply_commands-append resolve xs ys))
    ∙ sym (
        bind_assoc (apply_kind resolve x.kind x ls) (apply_commands resolve xs)
          (apply_commands resolve ys))

check_order-append :
    (barrier : ℕ) (xs : List EdCommand) (c : EdCommand)
    → check_order barrier xs ≡ ok tt
    → All (λ x. addressed_top c.kind c < affected_low x.kind x) xs
    → addressed_top c.kind c < barrier
    → check_order barrier (xs ++ c ∷ []) ≡ ok tt
unfolding check_order
check_order-append barrier [] c _ _ h = ground arith
check_order-append barrier (x ∷ xs) c passes (p, ps) h =
    elim (Bool-cases (leb barrier (addressed_top x.kind x))) [
      | inl bad ↦ absurd (ground arith)
      | inr good ↦ rw good (
          check_order-append (min (affected_low x.kind x) barrier) xs c (rw good at passes) ps
            (omega (arith, p, h)))
    ]

apply_commands-change_at :
    (resolve : RefResolver) (pre removed added : List Bytes) (cs : List EdCommand)
    (old new : List Bytes)
    → All Plain added
    → apply_commands resolve cs ((pre ++ removed) ++ old) ≡ ok ((pre ++ removed) ++ new)
    → apply_commands resolve
        (cs ++ command_for (change_at (length pre) removed added) ∷ [])
        (pre ++ (removed ++ old))
      ≡ ok (pre ++ (added ++ new))
unfolding apply_commands
apply_commands-change_at resolve pre removed added cs old new plain h =
    rw
      (
        apply_commands-append resolve cs (command_for (change_at (length pre) removed added) ∷ [])
            (pre ++ (removed ++ old)),
        sym (append_assoc pre removed old),
        h,
        append_assoc pre removed new,
        apply_change_at resolve pre removed added new plain,
      )
      refl

-- In front of the changes of the lines behind it.
pub Edits-change :
    (n : ℕ) (removed added : List Bytes) (cs : List Change) (old new : List Bytes)
    → All Plain added
    → Edits (n + length removed) cs old new
    → Edits n (change_at n removed added ∷ cs) (removed ++ old) (added ++ new)
Edits-change n removed added cs old new plain e =
    let c = command_for (change_at n removed added) in
    record {
      applies = λ resolve pre len.
          let longer : length (pre ++ removed) ≡ n + length removed =
            omega (arith, len, length-append pre removed) in
          rw (sym len) (
            apply_commands-change_at resolve pre removed added (commands_for cs) old new plain
              (e.applies resolve (pre ++ removed) longer));
      low =
          All-append (λ (x : EdCommand). n < affected_low x.kind x) (commands_for cs) (c ∷ [])
            (weaken n (n + length removed) (commands_for cs) (omega arith) (e.low))
            (omega (arith, change_at-low n removed added), tt);
      plain = (plain, e.plain);
      ordered = λ barrier h.
          check_order-append barrier (commands_for cs) c
            (e.ordered barrier (omega (arith, h, length-append removed old)))
            (rw (change_at-top n removed added) (e.low))
            (omega (arith, h, length-append removed old, change_at-top n removed added));
    }
