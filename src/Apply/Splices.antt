-- ===== src/Apply/Splices.antt =====
-- Replacements at positions of a list, one after the other and all at once.
use phpatcher.Base.{
  ltb, leb, ◌==◌, if◌then◌else◌, Bytes, length, take, drop, length-append, take-append-drop,
  length-take, length-drop, drop-drop, All, ℕ, ◌+◌, ◌≤◌, ◌<◌, min, Bool, false, ◌&&◌, ◌||◌, List,
  [], ◌∷◌, ◌++◌, append-nil, append_assoc, ◌≡◌, refl, sym, ap, ◌∙◌, arith,
}

-- Behind the first `gap` lines, `removed` lines give way to `text`.
pub record Splice : Type 0 where
  pub gap : ℕ
  pub removed : ℕ
  pub text : List Bytes

abbrev pub splice : Splice → List Bytes → List Bytes
splice p lines = take p.gap lines ++ (p.text ++ drop (p.gap + p.removed) lines)

-- One after the other: each position counts in the lines that the earlier ones have left.
unfoldable pub splice_all : List Splice → List Bytes → List Bytes
splice_all [] lines = lines
splice_all (p ∷ ps) lines = splice_all ps (splice p lines)

-- All at once, on the original lines: what stands in the gap behind the first `k` lines, and
-- whether line `k` (from 0) is removed. In one gap the text of a later splice comes first.
unfoldable pub inserted : ℕ → List Splice → List Bytes
inserted k [] = []
inserted k (p ∷ ps) = inserted k ps ++ (if p.gap == k then p.text else [])

unfoldable pub removes : ℕ → List Splice → Bool
removes k [] = false
removes k (p ∷ ps) = (leb p.gap k && ltb k (p.gap + p.removed)) || removes k ps

unfoldable pub render_from : ℕ → List Splice → List Bytes → List Bytes
unfolding inserted removes
render_from k ps [] = inserted k ps
render_from k ps (l ∷ ls) =
    inserted k ps ++ ((if removes k ps then [] else l ∷ []) ++ render_from (k + 1) ps ls)

abbrev pub render : List Splice → List Bytes → List Bytes
render = render_from 0

-- All the splices end at or before position `k`.
abbrev pub EndBy : ℕ → List Splice → Type 0
EndBy k = All (λ p. p.gap + p.removed ≤ k)

-- Each splice ends at or before the gap of every earlier one.
abbrev pub Descending : List Splice → Type 0
Descending [] = Unit
Descending (p ∷ ps) = EndBy p.gap ps × Descending ps

abbrev StartBelow : ℕ → List Splice → Type 0
StartBelow k = All (λ p. p.gap < k)

pub EndBy-weaken : (j k : ℕ) (ps : List Splice) → j ≤ k → EndBy j ps → EndBy k ps
EndBy-weaken j k [] h e = tt
EndBy-weaken j k (p ∷ ps) h (e, es) = (omega arith, EndBy-weaken j k ps h es)

EndBy-StartBelow : (k : ℕ) (ps : List Splice) → EndBy k ps → StartBelow (k + 1) ps
EndBy-StartBelow k [] e = tt
EndBy-StartBelow k (p ∷ ps) (e, es) = (omega arith, EndBy-StartBelow k ps es)

StartBelow-le : (j k : ℕ) (ps : List Splice) → j ≤ k → StartBelow j ps → StartBelow k ps
StartBelow-le j k [] h e = tt
StartBelow-le j k (p ∷ ps) h (e, es) = (omega arith, StartBelow-le j k ps h es)

inserted_none : (k : ℕ) (ps : List Splice) → StartBelow k ps → inserted k ps ≡ []
unfolding inserted
inserted_none k [] e = refl
inserted_none k (p ∷ ps) (e, es) = rw (inserted_none k ps es) (ground arith)

removes_none : (k : ℕ) (ps : List Splice) → EndBy k ps → removes k ps ≡ false
unfolding removes
removes_none k [] e = refl
removes_none k (p ∷ ps) (e, es) = rw (removes_none k ps es) (ground arith)

-- Where no splice starts or reaches, the lines stay as they are.
render_quiet :
    (k : ℕ) (ps : List Splice) (ls : List Bytes)
    → StartBelow k ps
    → EndBy k ps
    → render_from k ps ls ≡ ls
unfolding render_from
render_quiet k ps [] s e = inserted_none k ps s
render_quiet k ps (l ∷ ls) s e =
    rw (inserted_none k ps s, removes_none k ps e)
      (ap (◌∷◌ l) (
        render_quiet (k + 1) ps ls (StartBelow-le k (k + 1) ps (omega arith) s)
          (EndBy-weaken k (k + 1) ps (omega arith) e)))

-- Where they all end, only the gap itself may get text.
render_tail :
    (k : ℕ) (ps : List Splice) (ls : List Bytes)
    → EndBy k ps
    → render_from k ps ls ≡ inserted k ps ++ ls
unfolding render_from
render_tail k ps [] e = sym (append-nil _)
render_tail k ps (l ∷ ls) e = rw (removes_none k ps e) (
    ap (λ (t : List Bytes). inserted k ps ++ l ∷ t)
      (render_quiet (k + 1) ps ls (EndBy-StartBelow k ps e)
        (EndBy-weaken k (k + 1) ps (omega arith) e)))

-- One line further, inside the removed lines of the first splice.
render_removed_line :
    (k : ℕ) (p : Splice) (ps : List Splice) (l : Bytes) (ls : List Bytes)
    → p.gap < k
    → k < p.gap + p.removed
    → EndBy p.gap ps
    → render_from k (p ∷ ps) (l ∷ ls) ≡ render_from (k + 1) (p ∷ ps) ls
unfolding render_from
render_removed_line k p ps l ls lt gone h = ground (
  arith,
  inserted_none k ps (StartBelow-le (p.gap + 1) k ps (omega arith) (EndBy-StartBelow p.gap ps h)),
)

-- Inside the removed lines of the first splice.
render_removed :
    (k : ℕ) (p : Splice) (ps : List Splice) (gone ls : List Bytes)
    → p.gap < k
    → k + length gone ≡ p.gap + p.removed
    → EndBy p.gap ps
    → render_from k (p ∷ ps) (gone ++ ls) ≡ ls
render_removed k p ps [] ls lt e h =
    render_quiet k (p ∷ ps) ls
      (lt, StartBelow-le (p.gap + 1) k ps (omega arith) (EndBy-StartBelow p.gap ps h))
      (omega arith, EndBy-weaken p.gap k ps (omega arith) h)
render_removed k p ps (l ∷ gone) ls lt e h =
    render_removed_line k p ps l (gone ++ ls) lt (omega arith) h
    ∙ render_removed (k + 1) p ps gone ls (omega arith) (omega arith) h

inserted_at_gap :
    (p : Splice) (ps : List Splice) → inserted p.gap (p ∷ ps) ≡ inserted p.gap ps ++ p.text
unfolding inserted
inserted_at_gap p ps = ground arith

render_first_removed :
    (p : Splice) (ps : List Splice) (l : Bytes) (ls : List Bytes)
    → 0 < p.removed
    → render_from p.gap (p ∷ ps) (l ∷ ls)
      ≡ inserted p.gap ps ++ p.text ++ render_from (p.gap + 1) (p ∷ ps) ls
unfolding render_from
render_first_removed p ps l ls h = ground arith

-- Before its gap, the first splice does nothing.
render_before :
    (k : ℕ) (p : Splice) (ps : List Splice) (l : Bytes) (ls ms : List Bytes)
    → k < p.gap
    → render_from (k + 1) ps ls ≡ render_from (k + 1) (p ∷ ps) ms
    → render_from k ps (l ∷ ls) ≡ render_from k (p ∷ ps) (l ∷ ms)
unfolding render_from
render_before k p ps l ls ms lt e = ground (arith, append-nil (inserted k ps))

-- At its gap: what the others put there, its text, and the lines behind the removed ones.
render_gap :
    (p : Splice) (ps : List Splice) (gone ls : List Bytes)
    → length gone ≡ p.removed
    → EndBy p.gap ps
    → render_from p.gap (p ∷ ps) (gone ++ ls) ≡ inserted p.gap ps ++ (p.text ++ ls)
render_gap p ps [] ls e h =
    render_tail p.gap (p ∷ ps) ls (omega arith, h)
    ∙ ap (λ (t : List Bytes). t ++ ls) (inserted_at_gap p ps)
    ∙ append_assoc (inserted p.gap ps) p.text ls
render_gap p ps (l ∷ gone) ls e h =
    render_first_removed p ps l (gone ++ ls) (omega arith)
    ∙ ap (λ (t : List Bytes). inserted p.gap ps ++ p.text ++ t)
        (render_removed (p.gap + 1) p ps gone ls (omega arith) (omega arith) h)
    ∙ append_assoc (inserted p.gap ps) p.text ls

-- The first splice can be made at once, if the others end at or before its gap.
render_step :
    (k : ℕ) (p : Splice) (ps : List Splice) (kept gone ls : List Bytes)
    → p.gap ≡ k + length kept
    → length gone ≡ p.removed
    → EndBy p.gap ps
    → render_from k ps (kept ++ (p.text ++ ls)) ≡ render_from k (p ∷ ps) (kept ++ (gone ++ ls))
render_step k p ps [] gone ls at e h =
    let here : k ≡ p.gap = omega arith in
    rw here (render_tail p.gap ps (p.text ++ ls) h ∙ sym (render_gap p ps gone ls e h))
render_step k p ps (l ∷ kept) gone ls at e h =
    render_before k p ps l _ _ (omega arith)
      (render_step (k + 1) p ps kept gone ls (omega arith) e h)

pub min-le-splice : (p : Splice) (ls : List Bytes) → min p.gap (length ls) ≤ length (splice p ls)
min-le-splice p ls = omega (
  arith,
  length-append (take p.gap ls) (p.text ++ drop (p.gap + p.removed) ls),
  length-take p.gap ls,
)

-- Splices in descending order give the same lines one after the other and all at once.
pub splice_all-render :
    (ps : List Splice) (ls : List Bytes)
    → Descending ps
    → EndBy (length ls) ps
    → splice_all ps ls ≡ render ps ls
unfolding splice_all
splice_all-render [] ls d e = unfold inserted in sym (render_tail 0 [] ls tt)
splice_all-render (p ∷ ps) ls (h, d) (e, es) =
    splice_all-render ps (splice p ls) d
      (EndBy-weaken p.gap _ ps (omega (arith, min-le-splice p ls)) h)
    ∙ render_step 0 p ps kept gone (drop (p.gap + p.removed) ls)
        (omega (arith, length-take p.gap ls))
        (omega (arith, length-take p.removed (drop p.gap ls), length-drop p.gap ls)) h
    ∙ ap (render (p ∷ ps)) (
        ap (λ (t : List Bytes). kept ++ (gone ++ t)) (sym (drop-drop p.gap p.removed ls))
        ∙ ap (λ (t : List Bytes). kept ++ t) (take-append-drop p.removed (drop p.gap ls))
        ∙ take-append-drop p.gap ls)
  where
    kept : List Bytes
    kept = take p.gap ls

    gone : List Bytes
    gone = take p.removed (drop p.gap ls)
