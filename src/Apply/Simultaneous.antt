-- ===== src/Apply/Simultaneous.antt =====
-- The specification of a script: every address counts in the original file. The order check makes
-- the sequential code agree with it.
use phpatcher.Base.Results.{◌>>=◌, bind-eq-ok}
use phpatcher.Base.{
  leb, Bool-cases, Bytes, length, Result, ok, bind_assoc, Result-cases, ℕ, ◌+◌, ◌-◌, ◌≤◌, ◌<◌, min,
  List, [], ◌∷◌, ◌⊎◌, inl, inr, ◌≡◌, refl, sym, ◌∙◌, arith,
}
use phpatcher.Apply.{
  RefResolver, addressed_top, affected_low, check_order, validate_command_order, apply_commands,
  apply_ed_script,
}
use phpatcher.Apply.Plan.{
  check_range, command_text, splice_of, plan, apply_kind-splice, simultaneous,
}
use phpatcher.Apply.Splices.{
  Splice, splice, splice_all, EndBy, Descending, EndBy-weaken, min-le-splice, splice_all-render,
}
use phpatcher.Ed.{Kind, delete, change, append, insert, EdCommand, FilePatch}
use phpatcher.Number.{int64_max}
use phpatcher.Text.{split_lines}

check_range_bounds :
    (k : Kind) (c : EdCommand) (n : ℕ) (text : List Bytes)
    → check_range k c n ≡ ok tt
    → let p = splice_of k c text in
      (p.gap + p.removed ≤ n)
      × (affected_low k c ≡ p.gap + 1)
      × (p.gap + p.removed ≤ addressed_top k c)
unfolding check_range splice_of affected_low addressed_top
check_range_bounds delete c n text h = ground arith
check_range_bounds change c n text h = ground arith
check_range_bounds append c n text h = ground arith
check_range_bounds insert c n text h = ground arith

-- The lines that are left agree with the original ones as far as `barrier` says.
abbrev Agree : ℕ → ℕ → ℕ → Type 0
Agree barrier m n = (m ≡ n) ⊎ ((barrier ≤ m + 1) × (barrier ≤ n + 1))

check_range-Agree :
    (k : Kind) (c : EdCommand) (barrier m n : ℕ)
    → addressed_top k c < barrier
    → Agree barrier m n
    → check_range k c m ≡ check_range k c n
unfolding check_range addressed_top
check_range-Agree delete c barrier m n h a = ground arith
check_range-Agree change c barrier m n h a = ground arith
check_range-Agree append c barrier m n h a = ground arith
check_range-Agree insert c barrier m n h a = ground arith

check_order-cons :
    (barrier : ℕ) (c : EdCommand) (cs : List EdCommand)
    → check_order barrier (c ∷ cs) ≡ ok tt
    → (addressed_top c.kind c < barrier)
      × (check_order (min (affected_low c.kind c) barrier) cs ≡ ok tt)
unfolding check_order
check_order-cons barrier c cs h = elim (Bool-cases (leb barrier (addressed_top c.kind c))) [
  | inl bad ↦ absurd (ground arith)
  | inr good ↦ (ground arith, rw (good, check_order) at h)
]

Agree-splice :
    (c : EdCommand) (barrier n : ℕ) (text lines : List Bytes)
    → check_range c.kind c n ≡ ok tt
    → Agree barrier (length lines) n
    → let low = min (affected_low c.kind c) barrier in
      (low ≤ length (splice (splice_of c.kind c text) lines) + 1) × (low ≤ n + 1)
Agree-splice c barrier n text lines good a =
    let p = splice_of c.kind c text in
    let (within, low, _) = check_range_bounds c.kind c n text good in
    omega (arith, min-le-splice p lines)

-- What the sequential code does to the lines is a sequence of splices, which the plan gives.
apply_commands-splice_all :
    (resolve : RefResolver) (cs : List EdCommand) (lines : List Bytes) (barrier n : ℕ)
    → check_order barrier cs ≡ ok tt
    → Agree barrier (length lines) n
    → apply_commands resolve cs lines ≡ (plan resolve n cs >>= λ ps. ok (splice_all ps lines))
unfolding apply_commands plan splice_all
apply_commands-splice_all resolve [] lines barrier n h a = refl
apply_commands-splice_all resolve (c ∷ cs) lines barrier n h a =
    let (below, later) = check_order-cons barrier c cs h in
    rw
      (
        apply_kind-splice resolve c.kind c lines,
        check_range-Agree c.kind c barrier (length lines) n below a,
      )
      (elim (Result-cases (check_range c.kind c n)) [
        | inr (e, bad) ↦ rw bad
        | inl (_, good) ↦ elim (Result-cases (command_text resolve c.kind c)) [
          | inr (e, bad) ↦ rw (good, bad)
          | inl (text, read) ↦
              rw (good, read)
                (apply_commands-splice_all resolve cs _ _ n later
                    (inr (Agree-splice c barrier n text lines good a))
                  ∙ sym (bind_assoc (plan resolve n cs) _ _))
        ]
      ])

plan-cons :
    (resolve : RefResolver) (n : ℕ) (c : EdCommand) (cs : List EdCommand) (ps : List Splice)
    → plan resolve n (c ∷ cs) ≡ ok ps
    → (text : List Bytes) × (qs : List Splice) × (check_range c.kind c n ≡ ok tt)
      × (plan resolve n cs ≡ ok qs)
      × (ps ≡ splice_of c.kind c text ∷ qs)
unfolding plan
plan-cons resolve n c cs ps e =
    let rest = λ (text : List Bytes) (qs : List Splice).
      let r : Result Bytes (List Splice) = ok (splice_of c.kind c text ∷ qs) in r in
    let (_, good, e₁) =
      bind-eq-ok (check_range c.kind c n)
        (λ _. command_text resolve c.kind c >>= λ text. plan resolve n cs >>= rest text) e in
    let (text, read, e₂) =
      bind-eq-ok (command_text resolve c.kind c) (λ text. plan resolve n cs >>= rest text) e₁ in
    let (qs, planned, e₃) = bind-eq-ok (plan resolve n cs) (rest text) e₂ in
    (text, qs, good, planned, cc)

-- A plan in the order that the check asks for is made of splices in descending order.
plan-Descending :
    (resolve : RefResolver) (cs : List EdCommand) (barrier n : ℕ) (ps : List Splice)
    → check_order barrier cs ≡ ok tt
    → plan resolve n cs ≡ ok ps
    → Descending ps × EndBy (barrier - 1) ps × EndBy n ps
plan-Descending resolve [] barrier n [] h e = (tt, tt, tt)
plan-Descending resolve [] barrier n (p ∷ ps) h e = unfold plan in cc
plan-Descending resolve (c ∷ cs) barrier n ps h e =
    let (below, later) = check_order-cons barrier c cs h in
    let (text, qs, good, planned, shape) = plan-cons resolve n c cs ps e in
    let p = splice_of c.kind c text in
    let (within, low, top) = check_range_bounds c.kind c n text good in
    let (desc, ends, all) = plan-Descending resolve cs _ n qs later planned in
    rw shape (
      (EndBy-weaken _ p.gap qs (omega arith) ends, desc),
      (omega arith, EndBy-weaken _ (barrier - 1) qs (omega arith) ends),
      (within, all),
    )

-- The order check makes sequential application the same as simultaneous application: on every
-- input, errors included, the script gives what all its commands give when each of them is checked
-- against the original lines and made at its original line numbers.
pub apply_ed_script-simultaneous :
    (resolve : RefResolver) (fp : FilePatch) (original : Bytes)
    → apply_ed_script resolve fp original ≡ simultaneous resolve fp original
unfolding apply_ed_script simultaneous
apply_ed_script-simultaneous resolve fp original = elim (Result-cases (validate_command_order fp)) [
  | inr (e, bad) ↦ rw bad
  | inl (_, valid) ↦
      rw
        (
          valid,
          apply_commands-splice_all resolve fp.commands lines int64_max (length lines)
              (unfold validate_command_order in valid) (inl refl),
        )
        (elim (Result-cases (plan resolve (length lines) fp.commands)) [
          | inr (e, bad) ↦ rw bad
          | inl (ps, planned) ↦
              let (desc, _, within) =
                plan-Descending resolve fp.commands int64_max (length lines) ps
                  (unfold validate_command_order in valid) planned in
              rw (planned, splice_all-render ps lines desc within)
        ])
]
  where
    lines : List Bytes
    lines = (split_lines original).0
