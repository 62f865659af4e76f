-- ===== src/Factorize/Covered.antt =====
-- The marks of covered lines.
use phpatcher.Base.{
  ltb, leb, ◌==◌, if◌then◌else◌, length, ℕ, zero, suc, ◌+◌, ◌≤◌, ◌<◌, Bool, true, ◌&&◌, List, [],
  ◌∷◌, ◌≡◌, refl, ◌∙◌, arith,
}
use phpatcher.Factorize.{is_covered, cover, cover_range}

length-cover : (k : ℕ) (covered : List Bool) → length (cover k covered) ≡ length covered
unfolding cover
length-cover k [] = refl
length-cover zero (b ∷ covered) = refl
length-cover (suc k) (b ∷ covered) = omega (arith, length-cover k covered)

pub length-cover_range :
    (count k : ℕ) (covered : List Bool) → length (cover_range count k covered) ≡ length covered
unfolding cover_range
length-cover_range zero k covered = refl
length-cover_range (suc count) k covered =
    length-cover_range count (k + 1) (cover k covered) ∙ length-cover k covered

is_covered-cover :
    (k j : ℕ) (covered : List Bool)
    → k < length covered
    → is_covered (cover k covered) j ≡ (if k == j then true else is_covered covered j)
unfolding cover is_covered
is_covered-cover k j [] h = absurd (omega arith)
is_covered-cover zero zero (b ∷ covered) h = refl
is_covered-cover zero (suc j) (b ∷ covered) h = ground arith
is_covered-cover (suc k) zero (b ∷ covered) h = ground arith
is_covered-cover (suc k) (suc j) (b ∷ covered) h = ground (arith, is_covered-cover k j covered)

pub is_covered-cover_range :
    (count k j : ℕ) (covered : List Bool)
    → k + count ≤ length covered
    → is_covered (cover_range count k covered) j
      ≡ (if leb k j && ltb j (k + count) then true else is_covered covered j)
unfolding cover_range
is_covered-cover_range zero k j covered h = ground arith
is_covered-cover_range (suc count) k j covered h = ground (
  arith,
  is_covered-cover_range count (k + 1) j (cover k covered),
  is_covered-cover k j covered,
  length-cover k covered,
)
