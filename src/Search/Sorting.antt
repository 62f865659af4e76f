-- ===== src/Search/Sorting.antt =====
-- `sort_by` returns its elements in order, and `unique` keeps the elements of a sorted list.
use mathlib.Core.List.{Perm}
use mathlib.Core.List.Perm
use phpatcher.Base.{
  Bool-cases, Bytes, All, true, false, List, [], ◌∷◌, ◌++◌, inl, inr, ◌≡◌, refl, ap,
}
use phpatcher.Order.{less, less_asymm, le_trans_less}
use phpatcher.Search.{insert_by, sort_by}

module _ {ℓ} {A : Type ℓ} (key : A → Bytes) where
  -- No key of the list is smaller than `k`; every key of the list is smaller, or larger.
  abbrev pub AtLeast : Bytes → List A → Type 0
  AtLeast k = All (λ y. less (key y) k ≡ false)

  abbrev pub Below : Bytes → List A → Type 0
  Below k = All (λ y. less (key y) k ≡ true)

  abbrev pub Above : Bytes → List A → Type 0
  Above k = All (λ y. less k (key y) ≡ true)

  -- Ascending, equal keys allowed; and strictly ascending.
  abbrev pub IsSorted : List A → Type 0
  IsSorted [] = Unit
  IsSorted (x ∷ xs) = AtLeast (key x) xs × IsSorted xs

  abbrev pub IsStrict : List A → Type 0
  IsStrict [] = Unit
  IsStrict (x ∷ xs) = Above (key x) xs × IsStrict xs

module _ {ℓ} {A : Type ℓ} (key : A → Bytes) where
  AtLeast-weaken :
      (j k : Bytes) (xs : List A) → less k j ≡ false → AtLeast key k xs → AtLeast key j xs
  AtLeast-weaken j k [] h all = tt
  AtLeast-weaken j k (x ∷ xs) h (hx, all) =
      (le_trans_less j k (key x) h hx, AtLeast-weaken j k xs h all)

  insert_by-AtLeast :
      (k : Bytes) (x : A) (ys : List A)
      → less (key x) k ≡ false
      → AtLeast key k ys
      → AtLeast key k (insert_by key x ys)
  unfolding insert_by
  insert_by-AtLeast k x [] h all = (h, tt)
  insert_by-AtLeast k x (y ∷ ys) h (hy, all) = elim (Bool-cases (less (key y) (key x))) [
    | inl e ↦ rw (e, insert_by) (hy, insert_by-AtLeast k x ys h all)
    | inr e ↦ rw (e, insert_by) (h, (hy, all))
  ]

  insert_by-IsSorted : (x : A) (ys : List A) → IsSorted key ys → IsSorted key (insert_by key x ys)
  unfolding insert_by
  insert_by-IsSorted x [] s = (tt, tt)
  insert_by-IsSorted x (y ∷ ys) (all, s) = elim (Bool-cases (less (key y) (key x))) [
    | inl e ↦
        rw (e, insert_by)
          (
            insert_by-AtLeast (key y) x ys (less_asymm (key y) (key x) e) all,
            insert_by-IsSorted x ys s,
          )
    | inr e ↦ rw (e, insert_by) ((e, AtLeast-weaken (key x) (key y) ys e all), (all, s))
  ]

  pub sort_by-IsSorted : (xs : List A) → IsSorted key (sort_by key xs)
  unfolding sort_by
  sort_by-IsSorted [] = tt
  sort_by-IsSorted (x ∷ xs) = insert_by-IsSorted x (sort_by key xs) (sort_by-IsSorted xs)

  insert_by-perm : (x : A) (ys : List A) → Perm (insert_by key x ys) (x ∷ ys)
  unfolding insert_by
  insert_by-perm x [] = Perm.refl (x ∷ [])
  insert_by-perm x (y ∷ ys) = elim (Bool-cases (less (key y) (key x))) [
    | inl e ↦ rw (e, insert_by) (Perm.trans (Perm.cons y (insert_by-perm x ys)) (Perm.swap x y ys))
    | inr e ↦ rw (e, insert_by) (Perm.refl (x ∷ y ∷ ys))
  ]

  pub sort_by-perm : (xs : List A) → Perm (sort_by key xs) xs
  unfolding sort_by
  sort_by-perm [] = Perm.refl []
  sort_by-perm (x ∷ xs) =
      Perm.trans (insert_by-perm x (sort_by key xs)) (Perm.cons x (sort_by-perm xs))

  -- In a sorted list the smaller keys stand before the others.
  pub split_at_key :
      (k : Bytes) (xs : List A)
      → IsSorted key xs
      → (ys : List A) × (zs : List A) × (xs ≡ ys ++ zs)
        × Below key k ys
        × AtLeast key k zs
        × IsSorted key zs
  split_at_key k [] s = ([], [], refl, tt, tt, tt)
  split_at_key k (x ∷ xs) (all, s) = elim (Bool-cases (less (key x) k)) [
    | inl e ↦
        let (ys, zs, split, below, above, sorted) = split_at_key k xs s in
        (x ∷ ys, zs, ap (◌∷◌ x) split, (e, below), above, sorted)
    | inr e ↦ ([], x ∷ xs, refl, tt, (e, AtLeast-weaken k (key x) xs e all), (all, s))
  ]

  Above-AtLeast : (k : Bytes) (ys : List A) → Above key k ys → AtLeast key k ys
  Above-AtLeast k [] h = tt
  Above-AtLeast k (y ∷ ys) (h, hs) = (less_asymm k (key y) h, Above-AtLeast k ys hs)

  pub IsStrict-IsSorted : (xs : List A) → IsStrict key xs → IsSorted key xs
  IsStrict-IsSorted [] s = tt
  IsStrict-IsSorted (x ∷ xs) (h, s) = (Above-AtLeast (key x) xs h, IsStrict-IsSorted xs s)
