-- ===== src/Text/Trim.antt =====
-- What trimming keeps and what it drops.
use phpatcher.Base.{
  ℕ, Bool, true, false, ◌&&◌, [], ◌∷◌, ◌++◌, ◌≡◌, refl, sym, ap, ◌∙◌, append_assoc, arith, Bytes,
  All, is_empty, if◌then◌else◌, Bool-cases, inl, inr, some,
}
use phpatcher.Text.{is_blank, rtrim, drop_while, trim_blanks, after_prefix}

abbrev pub AllBlank : Bytes → Type 0
AllBlank = All (λ c. is_blank c ≡ true)

-- The first byte of a text, if there is one, passes no test.
abbrev pub HeadFails : (ℕ → Bool) → Bytes → Type 0
HeadFails test [] = Unit
HeadFails test (c ∷ s) = test c ≡ false

abbrev pub LastFails : (ℕ → Bool) → Bytes → Type 0
LastFails test [] = Unit
LastFails test (c ∷ []) = test c ≡ false
LastFails test (c ∷ d ∷ s) = LastFails test (d ∷ s)

pub drop_while_lem :
    (test : ℕ → Bool) (s : Bytes)
    → (p : Bytes) × (s ≡ p ++ drop_while test s)
      × All (λ c. test c ≡ true) p
      × HeadFails test (drop_while test s)
unfolding drop_while
drop_while_lem test [] = ([], refl, tt, tt)
drop_while_lem test (c ∷ s) = elim (Bool-cases (test c)) [
  | inl e ↦
      let (p, split, all, head) = drop_while_lem test s in
      (c ∷ p, rw (e, drop_while) (ap (◌∷◌ c) split), (e, all), rw (e, drop_while) head)
  | inr e ↦ ([], rw (e, drop_while), tt, rw (e, drop_while) e)
]

pub rtrim_lem :
    (s : Bytes) → (q : Bytes) × (s ≡ rtrim s ++ q) × AllBlank q × LastFails is_blank (rtrim s)
unfolding rtrim
rtrim_lem [] = ([], refl, tt, tt)
rtrim_lem (c ∷ s) = let (q, split, all, last) = rtrim_lem s in go (rtrim s) q split all last
  where
    go :
        (r q : Bytes)
        → s ≡ r ++ q
        → AllBlank q
        → LastFails is_blank r
        → (q' : Bytes) × (c ∷ s ≡ (if is_empty r && is_blank c then [] else c ∷ r) ++ q')
          × AllBlank q'
          × LastFails is_blank (if is_empty r && is_blank c then [] else c ∷ r)
    go [] q e all last = elim (Bool-cases (is_blank c)) [
      | inl b ↦ (c ∷ q, rw b (ap (◌∷◌ c) e), (b, all), rw b tt)
      | inr b ↦ (q, rw b (ap (◌∷◌ c) e), all, rw b b)
    ]
    go (d ∷ r) q e all last = (q, ap (◌∷◌ c) e, all, last)

rtrim-HeadFails : (s : Bytes) → HeadFails is_blank s → HeadFails is_blank (rtrim s)
unfolding rtrim
rtrim-HeadFails [] h = tt
rtrim-HeadFails (c ∷ s) h = ground (arith, h)

-- `trim_blanks` cuts blanks off both ends and nothing else, and leaves none at either end.
pub trim_blanks_lem :
    (s : Bytes)
    → (p q : Bytes) × (s ≡ p ++ trim_blanks s ++ q)
      × AllBlank p
      × AllBlank q
      × HeadFails is_blank (trim_blanks s)
      × LastFails is_blank (trim_blanks s)
unfolding trim_blanks
trim_blanks_lem s =
    let (p, front, all_p, head) = drop_while_lem is_blank s in
    let (q, back, all_q, last) = rtrim_lem (drop_while is_blank s) in
    (
      p,
      q,
      front ∙ ap (◌++◌ p) back ∙ sym (append_assoc p _ q),
      all_p,
      all_q,
      rtrim-HeadFails _ head,
      last,
    )

pub after_prefix_lem : (p s rest : Bytes) → after_prefix p s ≡ some rest → s ≡ p ++ rest
unfolding after_prefix
after_prefix_lem [] s rest h = ground arith
after_prefix_lem (c ∷ p) [] rest h = cc
after_prefix_lem (c ∷ p) (d ∷ s) rest h = ground (arith, after_prefix_lem p s rest)

pub after_prefix-append : (p rest : Bytes) → after_prefix p (p ++ rest) ≡ some rest
unfolding after_prefix
after_prefix-append [] rest = refl
after_prefix-append (c ∷ p) rest = ground (arith, after_prefix-append p rest)
