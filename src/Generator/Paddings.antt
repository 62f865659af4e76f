-- ===== src/Generator/Paddings.antt =====
-- `trim_pad_for` of tools/changes.cpp: the paddings of a line of the block.
use phpatcher.Base.{
  Bool-cases, Bytes, length, take, drop, is_empty, length-append, ℕ, ◌+◌, ◌-◌, ◌&&◌, ◌||◌, List, [],
  ◌∷◌, ◌++◌, append_assoc, inl, inr, some, ◌≡◌, refl, sym, ap, ◌∙◌, arith,
}
use phpatcher.Generator.{is_ws, trim_end, trim, trim_pad_for}
use phpatcher.Text.{drop_while}
use phpatcher.Text.Trim.{drop_while_lem}

trim_end_lem : (s : Bytes) → (q : Bytes) × (s ≡ trim_end s ++ q)
unfolding trim_end
trim_end_lem [] = ([], refl)
trim_end_lem (c ∷ s) = elim (Bool-cases (is_empty (trim_end s) && is_ws c)) [
  | inl e ↦ (c ∷ s, rw e refl)
  | inr e ↦ let (q, h) = trim_end_lem s in (q, rw e (ap (◌∷◌ c) h))
]

take-append {ℓ} : {A : Type ℓ} (xs ys : List A) → take (length xs) (xs ++ ys) ≡ xs
take-append [] ys = refl
take-append (x ∷ xs) ys = ap (◌∷◌ x) (take-append xs ys)

drop-append {ℓ} : {A : Type ℓ} (xs ys : List A) → drop (length xs) (xs ++ ys) ≡ ys
drop-append [] ys = refl
drop-append (x ∷ xs) ys = drop-append xs ys

-- What `take` and `drop` leave of three parts.
drop-parts : (p t q : Bytes) → drop (length p + length t) (p ++ (t ++ q)) ≡ q
drop-parts p t q = rw (sym (length-append p t), sym (append_assoc p t q)) (drop-append (p ++ t) q)

parts_of :
    (src dst lpad rpad : Bytes)
    → trim_pad_for src dst ≡ some (lpad, rpad)
    → let off = length dst - length (drop_while is_ws dst) in
      (take off dst ≡ lpad) × (drop (off + length (trim dst)) dst ≡ rpad)
unfolding trim_pad_for
parts_of src dst lpad rpad h = elim (Bool-cases (is_empty (trim src) || is_empty (trim dst))) [
  | inl e ↦ absurd (let k = rw e at h in cc)
  | inr e ↦ let k = rw e at h in (cc, cc)
]

-- The paddings that are computed for a line, put around its own core, give the line.
pub trim_pad_for_lem :
    (src dst lpad rpad : Bytes)
    → trim_pad_for src dst ≡ some (lpad, rpad)
    → dst ≡ lpad ++ (trim dst ++ rpad)
unfolding trim
trim_pad_for_lem src dst lpad rpad h =
    let w = drop_while is_ws dst in
    let (p, split, _, _) = drop_while_lem is_ws dst in
    let (q, cut) = trim_end_lem w in
    let whole : dst ≡ p ++ (trim_end w ++ q) = split ∙ ap (λ (t : Bytes). p ++ t) cut in
    let off : length dst - length w ≡ length p =
      omega (arith, ap (λ (t : Bytes). length t) split, length-append p w) in
    let (left, right) = parts_of src dst lpad rpad h in
    let lp : take (length p) dst ≡ p =
      ap (take (length p)) whole ∙ take-append p (trim_end w ++ q) in
    let rp : drop (length p + length (trim_end w)) dst ≡ q =
      ap (drop (length p + length (trim_end w))) whole ∙ drop-parts p (trim_end w) q in
    let l : lpad ≡ p = sym left ∙ ap (λ (n : ℕ). take n dst) off ∙ lp in
    let r : rpad ≡ q = sym right ∙ ap (λ (n : ℕ). drop (n + length (trim_end w)) dst) off ∙ rp in
    rw (l, r) whole
