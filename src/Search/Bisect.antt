-- ===== src/Search/Bisect.antt =====
-- `lower_bound` finds the boundary of a partitioned list.
use phpatcher.Base.{
  ◌==◌, Bool-cases, length, get_elem?, length-append, All, ℕ, zero, suc, ◌+◌, ◌-◌, ◌/◌, ◌≤◌, ◌<◌,
  Bool, true, false, List, [], ◌∷◌, ◌++◌, inl, inr, some, ◌≡◌, refl, dec_lt, arith,
}
use phpatcher.Search.{bisect, lower_bound}

module _ {ℓ} {A : Type ℓ} where
  get_elem?-left :
      (P : A → Type 0) (ys zs : List A) (i : ℕ)
      → All P ys
      → i < length ys
      → (x : A) × (get_elem? (ys ++ zs) i ≡ some x) × P x
  get_elem?-left P [] zs i h lt = elim lt [ ]
  get_elem?-left P (y ∷ ys) zs zero (h, hs) lt = (y, refl, h)
  get_elem?-left P (y ∷ ys) zs (suc i) (h, hs) lt = get_elem?-left P ys zs i hs (omega arith)

  get_elem?-right :
      (P : A → Type 0) (ys zs : List A) (i : ℕ)
      → All P zs
      → length ys ≤ i
      → i < length ys + length zs
      → (x : A) × (get_elem? (ys ++ zs) i ≡ some x) × P x
  get_elem?-right P (y ∷ ys) zs zero h le lt = absurd (omega arith)
  get_elem?-right P (y ∷ ys) zs (suc i) h le lt =
      get_elem?-right P ys zs i h (omega arith) (omega arith)
  get_elem?-right P [] [] i h le lt = absurd (omega arith)
  get_elem?-right P [] (z ∷ zs) zero (h, hs) le lt = (z, refl, h)
  get_elem?-right P [] (z ∷ zs) (suc i) (h, hs) le lt =
      get_elem?-right P [] zs i hs (omega arith) (omega arith)

module _ {ℓ} {A : Type ℓ} (before : A → Bool) (ys zs : List A)
    (passes : All (λ x. before x ≡ true) ys) (fails : All (λ x. before x ≡ false) zs) where
  bisect-boundary :
      (fuel first len : ℕ)
      → len ≤ fuel
      → first ≤ length ys
      → length ys ≤ first + len
      → first + len ≤ length ys + length zs
      → bisect before (ys ++ zs) fuel first len ≡ length ys
  unfolding bisect
  bisect-boundary zero first len f a b c = omega arith
  bisect-boundary (suc fuel) first len f a b c = elim (Bool-cases (len == 0)) [
    | inl e ↦ rw e (ground arith)
    | inr e ↦ elim (dec_lt (first + len / 2) (length ys)) [
      | yes lt ↦
          let (x, at, pass) = get_elem?-left _ ys zs (first + len / 2) passes lt in
          rw (e, at, pass)
            (bisect-boundary fuel (first + len / 2 + 1) (len - len / 2 - 1) (omega arith)
              (omega arith) (ground arith) (ground arith))
      | no ge ↦
          let (x, at, fail) =
            get_elem?-right _ ys zs (first + len / 2) fails (omega arith) (ground arith) in
          rw (e, at, fail)
            (bisect-boundary fuel first (len / 2) (ground arith) a (omega arith) (omega arith))
    ]
  ]

  -- With the fuel that it is given, the search ends at the boundary.
  pub lower_bound-boundary : lower_bound before (ys ++ zs) ≡ length ys
  unfolding lower_bound
  lower_bound-boundary =
      let sum = length-append ys zs in
      bisect-boundary (length (ys ++ zs)) 0 (length (ys ++ zs)) (omega arith) (omega arith)
        (omega arith) (omega arith)
