-- ===== src/Order.antt =====
-- `operator<` on std::string and std::string_view: bytes are compared as unsigned numbers, and a
-- proper prefix comes first.
use phpatcher.Base.{
  ltb, ◌==◌, Bool-cases, Bytes, equal, equal_iff, Bool, true, false, ◌&&◌, ◌||◌, [], ◌∷◌, inl, inr,
  ◌≡◌, refl, arith,
}

unfoldable pub less : Bytes → Bytes → Bool
less [] [] = false
less [] (y ∷ ys) = true
less (x ∷ xs) [] = false
less (x ∷ xs) (y ∷ ys) = ltb x y || (x == y && less xs ys)

pub less_irrefl : (a : Bytes) → less a a ≡ false
unfolding less
less_irrefl [] = refl
less_irrefl (x ∷ a) = ground (arith, less_irrefl a)

pub less_trans : (a b c : Bytes) → less a b ≡ true → less b c ≡ true → less a c ≡ true
unfolding less
less_trans a [] [] h k = cc
less_trans [] [] (z ∷ c) h k = refl
less_trans (x ∷ a) [] (z ∷ c) h k = cc
less_trans a (y ∷ b) [] h k = cc
less_trans [] (y ∷ b) (z ∷ c) h k = refl
less_trans (x ∷ a) (y ∷ b) (z ∷ c) h k = ground (arith, less_trans a b c)

pub less_asymm : (a b : Bytes) → less a b ≡ true → less b a ≡ false
less_asymm a b h = elim (Bool-cases (less b a)) [
  | inr e ↦ e
  | inl e ↦ let loop = less_trans a b a h e in cc (less_irrefl a)
]

pub less_total : (a b : Bytes) → less a b ≡ false → less b a ≡ false → a ≡ b
unfolding less
less_total [] [] h k = refl
less_total [] (y ∷ b) h k = cc
less_total (x ∷ a) [] h k = cc
less_total (x ∷ a) (y ∷ b) h k = ground (arith, less_total a b)

-- `a ≤ b < c` and `a < b ≤ c`.
pub less_of_le_less : (a b c : Bytes) → less b a ≡ false → less b c ≡ true → less a c ≡ true
less_of_le_less a b c h k = elim (Bool-cases (less a b)) [
  | inl e ↦ less_trans a b c e k
  | inr e ↦ rw (less_total a b e h) k
]

pub le_trans_less : (a b c : Bytes) → less b a ≡ false → less c b ≡ false → less c a ≡ false
le_trans_less a b c h k = elim (Bool-cases (less c a)) [
  | inr e ↦ e
  | inl e ↦ let back = less_of_le_less b c a k e in cc
]

pub less_of_less_le : (a b c : Bytes) → less a b ≡ true → less c b ≡ false → less a c ≡ true
less_of_less_le a b c h k = elim (Bool-cases (less a c)) [
  | inl e ↦ e
  | inr e ↦ let back = less_of_le_less c a b e h in cc
]

pub less_of_ne : (a b : Bytes) → less a b ≡ false → equal a b ≡ false → less b a ≡ true
less_of_ne a b h ne = elim (Bool-cases (less b a)) [
  | inl e ↦ e
  | inr e ↦ let same = (equal_iff a b).1 (less_total a b h e) in cc
]
