-- ===== src/Text/Lines.antt =====
-- Lines and the texts that they spell.
use phpatcher.Base.{
  ◌==◌, if◌then◌else◌, ==_iff, Bool-cases, Bytes, is_empty, All, All-append, ℕ, Bool, true, false,
  not, ◌&&◌, List, [], ◌∷◌, ◌++◌, append-nil, append_assoc, ◌≢◌, inl, inr, ◌≡◌, refl, sym, ap, ◌∙◌,
  arith,
}
use phpatcher.Text.{newline, scan_lines, split_lines, join_lines}

-- Every line behind its newline.
abbrev pub terminated : List Bytes → Bytes
terminated [] = []
terminated (l ∷ ls) = l ++ newline ∷ terminated ls

abbrev pub IsLine : Bytes → Type 0
IsLine = All (λ c. c ≢ newline)

terminated-scan_lines :
    (s cur : Bytes) → terminated (scan_lines cur s).0 ++ (scan_lines cur s).1 ≡ cur ++ s
unfolding scan_lines
terminated-scan_lines [] cur = sym (append-nil cur)
terminated-scan_lines (c ∷ s) cur = elim (Bool-cases (c == newline)) [
  | inl e ↦
      rw (e, scan_lines, (==_iff c newline).0 e)
        (append_assoc cur _ _ ∙ ap (λ (t : Bytes). cur ++ newline ∷ t) (terminated-scan_lines s []))
  | inr e ↦
      rw (e, scan_lines) (terminated-scan_lines s (cur ++ c ∷ []) ∙ append_assoc cur (c ∷ []) s)
]

pub join_lines_unterminated :
    (ls : List Bytes) (l : Bytes) → join_lines (ls ++ l ∷ []) false ≡ terminated ls ++ l
unfolding join_lines
join_lines_unterminated [] l = append-nil l
join_lines_unterminated (m ∷ []) l = simp (append-nil, append_assoc)
join_lines_unterminated (m ∷ n ∷ ls) l =
    ap (λ (t : Bytes). m ++ newline ∷ t) (join_lines_unterminated (n ∷ ls) l)
    ∙ sym (append_assoc m _ l)

pub join_lines-terminated : (ls : List Bytes) → join_lines ls true ≡ terminated ls
unfolding join_lines
join_lines-terminated [] = refl
join_lines-terminated (l ∷ []) = refl
join_lines-terminated (l ∷ m ∷ ls) =
    ap (λ (t : Bytes). l ++ newline ∷ t) (join_lines-terminated (m ∷ ls))

-- What `split_lines` makes of the lines that end and the bytes behind them.
join_lines_of_scan :
    (ls : List Bytes) (last s : Bytes)
    → terminated ls ++ last ≡ s
    → let r : List Bytes × Bool =
        if not (is_empty last) then (ls ++ last ∷ [], false) else (ls, not (is_empty s)) in
      join_lines r.0 r.1 ≡ s
join_lines_of_scan ls (c ∷ last) s e = join_lines_unterminated ls (c ∷ last) ∙ e
join_lines_of_scan [] [] [] e = unfold join_lines in refl
join_lines_of_scan ([] ∷ ls) [] [] e = cc
join_lines_of_scan ((x ∷ l) ∷ ls) [] [] e = cc
join_lines_of_scan ls [] (x ∷ s) e = join_lines-terminated ls ∙ sym (append-nil _) ∙ e

-- Splitting a text and joining the lines with its own flag gives the text back, byte for byte.
pub join_lines-split_lines : (s : Bytes) → join_lines (split_lines s).0 (split_lines s).1 ≡ s
unfolding split_lines
join_lines-split_lines s = join_lines_of_scan _ _ s (terminated-scan_lines s [])

scan_lines-line :
    (l s cur : Bytes)
    → IsLine l
    → scan_lines cur (l ++ newline ∷ s) ≡ ((cur ++ l) ∷ (scan_lines [] s).0, (scan_lines [] s).1)
unfolding scan_lines
scan_lines-line [] s cur _ = rw append-nil
scan_lines-line (c ∷ l) s cur (hc, h) = elim (Bool-cases (c == newline)) [
  | inl e ↦ absurd (hc ((==_iff c newline).0 e))
  | inr e ↦ rw (e, scan_lines) (scan_lines-line l s (cur ++ c ∷ []) h ∙ rw append_assoc)
]

scan_lines-terminated : (ls : List Bytes) → All IsLine ls → scan_lines [] (terminated ls) ≡ (ls, [])
scan_lines-terminated [] _ = unfold scan_lines in refl
scan_lines-terminated (l ∷ ls) (h, hs) =
    scan_lines-line l (terminated ls) [] h ∙ rw (scan_lines-terminated ls hs)

-- A newline-terminated list of lines is split into these lines.
pub split_lines-terminated :
    (ls : List Bytes)
    → All IsLine ls
    → split_lines (terminated ls) ≡ (ls, not (is_empty (terminated ls)))
unfolding split_lines
split_lines-terminated ls h = rw (scan_lines-terminated ls h)

-- No line that `split_lines` returns holds a newline.
scan_lines-IsLine :
    (s cur : Bytes) → IsLine cur → All IsLine (scan_lines cur s).0 × IsLine (scan_lines cur s).1
unfolding scan_lines
scan_lines-IsLine [] cur h = (tt, h)
scan_lines-IsLine (c ∷ s) cur h = elim (Bool-cases (c == newline)) [
  | inl e ↦ let (done, last) = scan_lines-IsLine s [] tt in rw (e, scan_lines) ((h, done), last)
  | inr e ↦
      rw (e, scan_lines)
        (scan_lines-IsLine s (cur ++ c ∷ []) (All-append _ cur (c ∷ []) h ((ground arith), tt)))
]

pub split_lines-IsLine : (s : Bytes) → All IsLine (split_lines s).0
unfolding split_lines
split_lines-IsLine s = go (scan_lines [] s).0 (scan_lines [] s).1 (scan_lines-IsLine s [] tt)
  where
    go :
        (ls : List Bytes) (last : Bytes)
        → All IsLine ls × IsLine last
        → let r : List Bytes × Bool =
            if not (is_empty last) then (ls ++ last ∷ [], false) else (ls, not (is_empty s)) in
          All IsLine r.0
    go ls [] (h, _) = h
    go ls (c ∷ last) (h, hl) = All-append IsLine ls ((c ∷ last) ∷ []) h (hl, tt)

-- The same as a test, which computes on a literal.
unfoldable pub all_but : ℕ → Bytes → Bool
all_but n [] = true
all_but n (c ∷ s) = not (c == n) && all_but n s

pub all_but-IsLine : (s : Bytes) → all_but newline s ≡ true → IsLine s
unfolding all_but
all_but-IsLine [] _ = tt
all_but-IsLine (c ∷ s) h = ((λ e. ground arith), all_but-IsLine s (ground arith))
