-- ===== src/Collector/Contents.antt =====
-- The content that libgit2 gives for an added line, against `strip_eol` of tools/changes.cpp.
use phpatcher.Base.{
  ◌==◌, ==_iff, Bool-cases, Bytes, ℕ, true, [], ◌∷◌, ◌++◌, append_assoc, ◌≢◌, inl, inr, ◌≡◌, refl,
  sym, ap, arith,
}
use phpatcher.Collector.{drop_last_if, strip_eol}

-- A text that does not end in this byte.
abbrev pub NotLast : ℕ → Bytes → Type 0
NotLast c l = (s : Bytes) → l ≢ s ++ c ∷ []

-- The content of a line with the text `l`: a line ends in `\n` or in `\r\n`, the last line of a file in
-- nothing or in `\r`.
pub data IsContentOf : Bytes → Bytes → Type 0 where
  lf : (l : Bytes) → NotLast b'\r' l → IsContentOf (l ++ b'\n' ∷ []) l
  crlf : (l : Bytes) → IsContentOf (l ++ b'\r' ∷ b'\n' ∷ []) l
  unended : (l : Bytes) → NotLast b'\n' l → NotLast b'\r' l → IsContentOf l l
  cr_only : (l : Bytes) → IsContentOf (l ++ b'\r' ∷ []) l

drop_last_if-append : (n : ℕ) (l : Bytes) → drop_last_if n (l ++ n ∷ []) ≡ l
unfolding drop_last_if
drop_last_if-append n [] = let e : (n == n) ≡ true = ground arith in rw e refl
drop_last_if-append n (c ∷ []) = ap (◌∷◌ c) (drop_last_if-append n [])
drop_last_if-append n (c ∷ d ∷ l) = ap (◌∷◌ c) (drop_last_if-append n (d ∷ l))

drop_last_if-NotLast : (n : ℕ) (l : Bytes) → NotLast n l → drop_last_if n l ≡ l
unfolding drop_last_if
drop_last_if-NotLast n [] h = refl
drop_last_if-NotLast n (c ∷ []) h = elim (Bool-cases (c == n)) [
  | inl e ↦ absurd (h [] (ap (λ (k : ℕ). k ∷ []) ((==_iff c n).0 e)))
  | inr e ↦ rw e refl
]
drop_last_if-NotLast n (c ∷ d ∷ l) h =
    ap (◌∷◌ c) (drop_last_if-NotLast n (d ∷ l) (λ s e. h (c ∷ s) (ap (◌∷◌ c) e)))

last_unique : (a b : ℕ) (s t : Bytes) → s ++ a ∷ [] ≡ t ++ b ∷ [] → a ≡ b
last_unique a b [] [] e = cc
last_unique a b [] (y ∷ []) e = cc
last_unique a b [] (y ∷ z ∷ t) e = cc
last_unique a b (x ∷ []) [] e = cc
last_unique a b (x ∷ z ∷ s) [] e = cc
last_unique a b (x ∷ s) (y ∷ t) e = last_unique a b s t (cc)

pub append-NotLast : (c n : ℕ) (l : Bytes) → c ≢ n → NotLast n (l ++ c ∷ [])
append-NotLast c n l other s e = other (last_unique c n l s e)

-- The end of a line is cut off, of either kind, and nothing else.
pub strip_eol-IsContentOf : {content l : Bytes} → IsContentOf content l → strip_eol content ≡ l
unfolding strip_eol
strip_eol-IsContentOf (lf l h) = rw (drop_last_if-append b'\n' l) (drop_last_if-NotLast b'\r' l h)
strip_eol-IsContentOf (crlf l) =
    rw (sym (append_assoc l (b'\r' ∷ []) (b'\n' ∷ [])), drop_last_if-append b'\n' (l ++ b'\r' ∷ []))
      (drop_last_if-append b'\r' l)
strip_eol-IsContentOf (unended l h k) =
    rw (drop_last_if-NotLast b'\n' l h) (drop_last_if-NotLast b'\r' l k)
strip_eol-IsContentOf (cr_only l) =
    let no_lf : NotLast b'\n' (l ++ b'\r' ∷ []) =
      λ s e. absurd (omega (arith, last_unique b'\r' b'\n' l s e)) in
    rw (drop_last_if-NotLast b'\n' (l ++ b'\r' ∷ []) no_lf) (drop_last_if-append b'\r' l)
