-- ===== src/Search.antt =====
-- What patch.cpp uses of <algorithm>, over a Boolean `operator<` on keys: std::sort, std::unique,
-- std::lower_bound. The order that std::sort leaves among elements with equal keys is open in the
-- standard; here they keep theirs.
pub mod Bisect
pub mod Sorting
use phpatcher.Base.{
  ◌==◌, if◌then◌else◌, Bytes, equal, length, get_elem?, ℕ, zero, suc, ◌+◌, ◌-◌, ◌/◌, Bool, List, [],
  ◌∷◌, none, some,
}
use phpatcher.Order.{less}

module _ {ℓ} {A : Type ℓ} (key : A → Bytes) where
  unfoldable pub insert_by : A → List A → List A
  insert_by x [] = x ∷ []
  insert_by x (y ∷ ys) = if less (key y) (key x) then y ∷ insert_by x ys else x ∷ y ∷ ys

  unfoldable pub sort_by : List A → List A
  unfolding insert_by
  sort_by [] = []
  sort_by (x ∷ xs) = insert_by x (sort_by xs)

-- std::unique, and the `erase` of what it leaves behind: of equal neighbours one stays.
unfoldable pub unique : List Bytes → List Bytes
unique [] = []
unique (x ∷ []) = x ∷ []
unique (x ∷ y ∷ ys) = let rest = unique (y ∷ ys) in if equal x y then rest else x ∷ rest

-- The first position whose element fails the test, in a list where no element that passes stands
-- behind one that fails: `len` halves each round.
module _ {ℓ} {A : Type ℓ} (before : A → Bool) (xs : List A) where
  bisect : ℕ → ℕ → ℕ → ℕ
  bisect zero first len = first
  bisect (suc fuel) first len =
      let half = len / 2 in
      let right = bisect fuel (first + half + 1) (len - half - 1) in
      let left = bisect fuel first half in
      if len == 0 then first else elim (get_elem? xs (first + half)) [
        | none ↦ first
        | some x ↦ if before x then right else left
      ]

  unfoldable pub lower_bound : ℕ
  unfolding bisect
  lower_bound = bisect (length xs) 0 (length xs)
