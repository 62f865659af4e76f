-- ===== src/Dict.antt =====
-- std::unordered_map with string keys, as far as the code uses it: look-up, and assignment to a key.
use phpatcher.Base.{
  if◌then◌else◌, Bool-cases, Bytes, equal, equal_iff, false, List, [], ◌∷◌, inl, inr, Option, none,
  some, ◌≡◌, refl, arith,
}

module _ {ℓ} {V : Type ℓ} where
  unfoldable pub lookup : Bytes → List (Bytes × V) → Option V
  lookup k [] = none
  lookup k ((j, v) ∷ m) = if equal j k then some v else lookup k m

  unfoldable pub assign : Bytes → V → List (Bytes × V) → List (Bytes × V)
  assign k v [] = (k, v) ∷ []
  assign k v ((j, w) ∷ m) = if equal j k then (j, v) ∷ m else (j, w) ∷ assign k v m

  pub lookup-assign :
      (k j : Bytes) (v : V) (m : List (Bytes × V))
      → lookup j (assign k v m) ≡ (if equal k j then some v else lookup j m)
  unfolding lookup assign
  lookup-assign k j v [] = refl
  lookup-assign k j v ((i, w) ∷ m) =
      ground (arith, equal_iff k j, equal_iff i k, equal_iff i j, lookup-assign k j v m)

  -- No key occurs twice.
  abbrev pub IsMap : List (Bytes × V) → Type ℓ
  IsMap [] = Unit
  IsMap ((k, v) ∷ m) = (lookup k m ≡ none) × IsMap m

  assign-absent :
      (k j : Bytes) (v : V) (m : List (Bytes × V))
      → lookup j m ≡ none
      → equal k j ≡ false
      → lookup j (assign k v m) ≡ none
  assign-absent k j v m absent other = rw (lookup-assign k j v m, other) absent

  pub assign-IsMap : (k : Bytes) (v : V) (m : List (Bytes × V)) → IsMap m → IsMap (assign k v m)
  unfolding assign lookup
  assign-IsMap k v [] _ = (refl, tt)
  assign-IsMap k v ((j, w) ∷ m) (once, h) = elim (Bool-cases (equal j k)) [
    | inl e ↦ rw e (once, h)
    | inr e ↦
        let other : equal k j ≡ false = ground (arith, equal_iff k j, equal_iff j k) in
        rw e (assign-absent k j v m once other, assign-IsMap k v m h)
  ]
