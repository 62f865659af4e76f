-- ===== src/Generator/Emitter/Scripts.antt =====
-- patch.cpp on the commands of changes whose lines are written in another way: the patcher makes the
-- same edit.
use phpatcher.Base.Results.{◌>>=◌}
use phpatcher.Base.{
  ◌==◌, Bool-cases, Bytes, is_empty, All, Result, ℕ, ◌+◌, min, Bool, List, [], ◌∷◌, ◌++◌, map, inl,
  inr, Option, ◌≡◌, refl, sym, ap, fun_ext, ◌∙◌,
}
use phpatcher.Apply.{
  RefResolver, build_input, addressed_top, affected_low, check_order, validate_command_order,
  apply_kind, apply_commands, apply_ed_script,
}
use phpatcher.Collector.Placed.{Plain, build_input-Plain}
use phpatcher.Ed.{Kind, delete, change, append, insert, EdCommand}
use phpatcher.Generator.{Change}
use phpatcher.Generator.Commands.{command_for}
use phpatcher.Generator.Emitter.Written.{
  IsWritable, written_change, written_for-reads, written_for-alike,
}
use phpatcher.Generator.Sections.{commands_for}
use phpatcher.Number.{int64_max}
use phpatcher.Text.{split_lines}

-- Commands of one kind and one range whose blocks are resolved to the same lines.
record IsAlike (resolve : RefResolver) (x y : EdCommand) : Type 0 where
  pub kinds : x.kind ≡ y.kind
  pub starts : x.start ≡ y.start
  pub ends : x.end ≡ y.end
  pub inputs : build_input resolve x.input ≡ build_input resolve y.input

apply_kind-IsAlike :
    (resolve : RefResolver) (k : Kind) (x y : EdCommand) (ls : List Bytes)
    → IsAlike resolve x y
    → apply_kind resolve k x ls ≡ apply_kind resolve k y ls
unfolding apply_kind
apply_kind-IsAlike resolve delete x y ls h = rw (h.starts, h.ends) refl
apply_kind-IsAlike resolve change x y ls h = rw (h.starts, h.ends, h.inputs) refl
apply_kind-IsAlike resolve append x y ls h = rw (h.starts, h.inputs) refl
apply_kind-IsAlike resolve insert x y ls h = rw (h.starts, h.inputs) refl

addressed_top-IsAlike :
    (resolve : RefResolver) (k : Kind) (x y : EdCommand)
    → IsAlike resolve x y
    → (addressed_top k x ≡ addressed_top k y) × (affected_low k x ≡ affected_low k y)
unfolding addressed_top affected_low
addressed_top-IsAlike resolve delete x y h = (h.ends, h.starts)
addressed_top-IsAlike resolve change x y h = (h.ends, h.starts)
addressed_top-IsAlike resolve append x y h = (h.starts, ap (λ (n : ℕ). n + 1) (h.starts))
addressed_top-IsAlike resolve insert x y h = (h.starts, h.starts)

abbrev AllAlike : RefResolver → List EdCommand → List EdCommand → Type 0
AllAlike resolve [] [] = Unit
AllAlike resolve [] (y ∷ ys) = ⊥
AllAlike resolve (x ∷ xs) [] = ⊥
AllAlike resolve (x ∷ xs) (y ∷ ys) = IsAlike resolve x y × AllAlike resolve xs ys

check_order-AllAlike :
    (resolve : RefResolver) (barrier : ℕ) (xs ys : List EdCommand)
    → AllAlike resolve xs ys
    → check_order barrier xs ≡ check_order barrier ys
unfolding check_order
check_order-AllAlike resolve barrier [] [] _ = refl
check_order-AllAlike resolve barrier [] (y ∷ ys) h = absurd h
check_order-AllAlike resolve barrier (x ∷ xs) [] h = absurd h
check_order-AllAlike resolve barrier (x ∷ xs) (y ∷ ys) (h, hs) =
    let (tops, lows) = addressed_top-IsAlike resolve y.kind x y h in
    let top = ap (λ (k : Kind). addressed_top k x) (h.kinds) ∙ tops in
    let low = ap (λ (k : Kind). affected_low k x) (h.kinds) ∙ lows in
    rw (top, low, check_order-AllAlike resolve (min (affected_low y.kind y) barrier) xs ys hs) refl

apply_commands-AllAlike :
    (resolve : RefResolver) (xs ys : List EdCommand) (ls : List Bytes)
    → AllAlike resolve xs ys
    → apply_commands resolve xs ls ≡ apply_commands resolve ys ls
unfolding apply_commands
apply_commands-AllAlike resolve [] [] ls _ = refl
apply_commands-AllAlike resolve [] (y ∷ ys) ls h = absurd h
apply_commands-AllAlike resolve (x ∷ xs) [] ls h = absurd h
apply_commands-AllAlike resolve (x ∷ xs) (y ∷ ys) ls (h, hs) =
    rw
      (ap (λ (k : Kind). apply_kind resolve k x ls) (h.kinds)
        ∙ apply_kind-IsAlike resolve y.kind x y ls h)
      (ap (λ (k : List Bytes → Result Bytes (List Bytes)). apply_kind resolve y.kind y ls >>= k)
        (fun_ext λ next. apply_commands-AllAlike resolve xs ys next hs))

AllAlike-append :
    (resolve : RefResolver) (xs ys : List EdCommand) (x y : EdCommand)
    → AllAlike resolve xs ys
    → IsAlike resolve x y
    → AllAlike resolve (xs ++ x ∷ []) (ys ++ y ∷ [])
AllAlike-append resolve [] [] x y _ k = (k, tt)
AllAlike-append resolve [] (v ∷ vs) x y h k = absurd h
AllAlike-append resolve (u ∷ us) [] x y h k = absurd h
AllAlike-append resolve (u ∷ us) (v ∷ vs) x y (h, hs) k =
    (h, AllAlike-append resolve us vs x y hs k)

module _ (emit_added : List Bytes → Option (List Bytes)) (resolve : RefResolver) where
  -- An added block that is read as the patcher reads the lines themselves.
  command_for-IsAlike :
      (c : Change)
      → IsWritable emit_added resolve c.added
      → All Plain c.added
      → IsAlike resolve (command_for (written_change emit_added resolve c)) (command_for c)
  command_for-IsAlike c w plain =
      let read =
        written_for-reads emit_added resolve c.added w
        ∙ sym (build_input-Plain resolve c.added plain) in
      let alike = written_for-alike emit_added resolve c.added w in
      elim (Bool-cases (c.old_count == 0)) [
        | inl e ↦ rw e (record { kinds = refl; starts = refl; ends = refl; inputs = read })
        | inr e ↦ elim (Bool-cases (is_empty c.added)) [
          | inl f ↦
              rw (e, f, alike ∙ f)
                (record { kinds = refl; starts = refl; ends = refl; inputs = refl })
          | inr f ↦
              rw (e, f, alike ∙ f)
                (record { kinds = refl; starts = refl; ends = refl; inputs = read })
        ]
      ]

  commands_for-AllAlike :
      (cs : List Change)
      → All (λ c. IsWritable emit_added resolve c.added) cs
      → All (λ c. All Plain c.added) cs
      → AllAlike resolve
          (commands_for (map (written_change emit_added resolve) cs))
          (commands_for cs)
  commands_for-AllAlike [] _ _ = tt
  commands_for-AllAlike (c ∷ cs) (w, ws) (p, ps) =
      AllAlike-append resolve (commands_for (map (written_change emit_added resolve) cs))
        (commands_for cs) _ _ (commands_for-AllAlike cs ws ps) (command_for-IsAlike c w p)

  pub apply_ed_script-written :
      (cs : List Change) (creates : Bool) (text : Bytes)
      → All (λ c. IsWritable emit_added resolve c.added) cs
      → All (λ c. All Plain c.added) cs
      → apply_ed_script resolve
          (record {
            commands = commands_for (map (written_change emit_added resolve) cs);
            creates = creates;
          })
          text
        ≡ apply_ed_script resolve (record { commands = commands_for cs; creates = creates }) text
  unfolding apply_ed_script validate_command_order
  apply_ed_script-written cs creates text ws ps =
      let alike = commands_for-AllAlike cs ws ps in
      rw
        (
          check_order-AllAlike resolve int64_max _ _ alike,
          apply_commands-AllAlike resolve _ _ (split_lines text).0 alike,
        )
        refl
