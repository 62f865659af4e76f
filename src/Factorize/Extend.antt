-- ===== src/Factorize/Extend.antt =====
-- A candidate grows as long as the lines match and no accepted run is met.
use phpatcher.Base.{
  ltb, ◌==◌, ltb→lt, ltb_false→le, Bool-cases, ℕ, zero, suc, ◌+◌, ◌-◌, ◌%◌, ◌^◌, ◌≤◌, ◌<◌, Bool,
  true, false, not, ◌&&◌, List, inl, inr, ◌≡◌, sym, arith,
}
use phpatcher.Factorize.{is_covered, extend_up, extend_down}
use phpatcher.Words.{IsU32}

module _ (equal_at : ℕ → ℕ → ℕ → Bool) (covered : List Bool) (file : ℕ) where
  -- The block line `b + i` is not covered and matches the corpus line `c + i`.
  abbrev Fits : ℕ → ℕ → ℕ → Type 0
  Fits b c i = (is_covered covered (b + i) ≡ false) × (equal_at (b + i) file (c + i) ≡ true)

  -- So do the `count` lines from there on.
  abbrev pub Matches : ℕ → ℕ → ℕ → Type 0
  Matches b c count = (i : ℕ) → i < count → Fits b c i

  Fits-shift : (b c b' c' i j : ℕ) → b + i ≡ b' + j → c + i ≡ c' + j → Fits b c i → Fits b' c' j
  Fits-shift b c b' c' i j e f fit = rw (sym e, sym f) fit

  pub Matches-append :
      (b c m n : ℕ) → Matches b c m → Matches (b + m) (c + m) n → Matches b c (m + n)
  Matches-append b c m n front back i lt = elim (Bool-cases (ltb i m)) [
    | inl e ↦ front i (ltb→lt i m e)
    | inr e ↦
        let le = ltb_false→le i m e in
        Fits-shift (b + m) (c + m) b c (i - m) i (omega arith) (omega arith)
          (back (i - m) (omega arith))
  ]

  pub Matches-one :
      (b c : ℕ) → is_covered covered b ≡ false → equal_at b file c ≡ true → Matches b c 1
  Matches-one b c free same i lt =
      let e : i ≡ 0 = omega arith in
      let eb : b + 0 ≡ b = omega arith in
      let ec : c + 0 ≡ c = omega arith in rw (e, eb, ec) (free, same)

  -- The lines above a line, that line, and the lines below it.
  pub Matches-join :
      (b0 c0 pos c b1 : ℕ)
      → b0 ≤ pos
      → pos ≤ b1
      → c0 + (pos - b0) ≡ c
      → Matches b0 c0 (pos - b0)
      → Matches pos c 1
      → Matches (pos + 1) (c + 1) (b1 - pos)
      → Matches b0 c0 (b1 + 1 - b0)
  Matches-join b0 c0 pos c b1 above below sum front one back =
      let here : b0 + (pos - b0) ≡ pos = omega arith in
      let count : pos - b0 + (1 + (b1 - pos)) ≡ b1 + 1 - b0 = omega arith in
      rw (sym count) (
        Matches-append b0 c0 (pos - b0) (1 + (b1 - pos)) front
          (rw (here, sum) (Matches-append pos c 1 (b1 - pos) one back)))

  -- Where the loop upwards may end.
  abbrev pub UpFrom : ℕ → ℕ → ℕ × ℕ → Type 0
  UpFrom b c (b0, c0) = (b0 ≤ b) × (1 ≤ c0) × (c0 + (b - b0) ≡ c) × Matches b0 c0 (b - b0)

  UpFrom-suc :
      (b c : ℕ) (p : ℕ × ℕ)
      → 1 < c
      → is_covered covered b ≡ false
      → equal_at b file (c - 1) ≡ true
      → UpFrom b (c - 1) p
      → UpFrom (suc b) c p
  UpFrom-suc b c (b0, c0) above free same (le, first, sum, front) =
      let eb : b0 + (b - b0) ≡ b = omega arith in
      let ec : c0 + (b - b0) ≡ c - 1 = omega arith in
      let count : b - b0 + 1 ≡ suc b - b0 = omega arith in
      (
        omega arith,
        first,
        omega arith,
        rw (sym count)
            (Matches-append b0 c0 (b - b0) 1 front (rw (eb, ec) (Matches-one b (c - 1) free same))),
      )

  pub extend_up-UpFrom : (b c : ℕ) → 1 ≤ c → UpFrom b c (extend_up equal_at covered file b c)
  unfolding extend_up
  extend_up-UpFrom zero c h = (omega arith, h, omega arith, λ i lt. absurd (omega arith))
  extend_up-UpFrom (suc b) c h =
      elim (Bool-cases (ltb 1 c && not (is_covered covered b) && equal_at b file (c - 1))) [
        | inl e ↦
            let (above, free, same) : (1 < c)
                × (is_covered covered b ≡ false)
                × (equal_at b file (c - 1) ≡ true) =
              ground arith in
            rw e (
              UpFrom-suc b c (extend_up equal_at covered file b (c - 1)) above free same
                (extend_up-UpFrom b (c - 1) (omega arith)))
        | inr e ↦ rw e (omega arith, h, omega arith, λ i lt. absurd (omega arith))
      ]

  -- Where the loop downwards may end.
  abbrev pub DownFrom : ℕ → ℕ → ℕ → ℕ × ℕ → Type 0
  DownFrom left b c (b1, c1) =
      (b ≤ b1) × (b1 ≤ b + left) × (c1 ≡ c + (b1 - b)) × Matches (b + 1) (c + 1) (b1 - b)

  DownFrom-suc :
      (left b c : ℕ) (p : ℕ × ℕ)
      → is_covered covered (b + 1) ≡ false
      → equal_at (b + 1) file (c + 1) ≡ true
      → DownFrom left (b + 1) (c + 1) p
      → DownFrom (suc left) b c p
  DownFrom-suc left b c (b1, c1) free same (le, bound, sum, back) =
      let count : 1 + (b1 - (b + 1)) ≡ b1 - b = omega arith in
      (
        omega arith,
        omega arith,
        omega arith,
        rw (sym count) (
            Matches-append (b + 1) (c + 1) 1 (b1 - (b + 1)) (Matches-one (b + 1) (c + 1) free same)
              back),
      )

  not_wrapped :
      (c b : ℕ)
      → IsU32 c
      → ((b : ℕ) → equal_at b file 0 ≡ false)
      → equal_at b file ((c + 1) % 2 ^ 32) ≡ true
      → (c + 1) % 2 ^ 32 ≡ c + 1
  not_wrapped c b h none_first same = elim (Bool-cases (c + 1 == 2 ^ 32)) [
    | inl e ↦
        let zero_line : (c + 1) % 2 ^ 32 ≡ 0 = ground arith in
        let back : equal_at b file 0 ≡ true = rw zero_line at same in cc (none_first b)
    | inr e ↦ ground arith
  ]

  -- A line 0 of the corpus matches nothing, so the line number does not wrap around.
  pub extend_down-DownFrom :
      (left b c : ℕ)
      → IsU32 c
      → ((b : ℕ) → equal_at b file 0 ≡ false)
      → DownFrom left b c (extend_down equal_at covered file left b c)
  unfolding extend_down
  extend_down-DownFrom zero b c h none_first =
      (omega arith, omega arith, omega arith, λ i lt. absurd (omega arith))
  extend_down-DownFrom (suc left) b c h none_first =
      let c' = (c + 1) % 2 ^ 32 in
      elim (Bool-cases (not (is_covered covered (b + 1)) && equal_at (b + 1) file c')) [
        | inl e ↦
            let (free, same) : (is_covered covered (b + 1) ≡ false)
                × (equal_at (b + 1) file c' ≡ true) =
              ground arith in
            let no_wrap : c' ≡ c + 1 = not_wrapped c (b + 1) h none_first same in
            rw (e, no_wrap)
              (DownFrom-suc left b c (extend_down equal_at covered file left (b + 1) (c + 1)) free
                (rw no_wrap at same)
                (extend_down-DownFrom left (b + 1) (c + 1) (omega arith) none_first))
        | inr e ↦ rw e (omega arith, omega arith, omega arith, λ i lt. absurd (omega arith))
      ]
