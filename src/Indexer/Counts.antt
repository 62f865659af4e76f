-- ===== src/Indexer/Counts.antt =====
-- Lists of numbers up to their order: how many elements pass a test, and that sorting forgets the rest.
use phpatcher.Base.{
  ltb, ◌==◌, if◌then◌else◌, Bool-cases, All, All-map, ℕ, ◌+◌, ◌≤◌, ◌<◌, Bool, List, [], ◌∷◌, ◌++◌,
  map, inl, inr, ◌≡◌, refl, sym, ap, ◌∙◌, arith,
}
use phpatcher.Factorize.{insert_num, sort_num}

abbrev pub num : (ℕ → Bool) → List ℕ → ℕ
num q [] = 0
num q (x ∷ xs) = let rest = num q xs in if q x then rest + 1 else rest

pub num-append : (q : ℕ → Bool) (xs ys : List ℕ) → num q (xs ++ ys) ≡ num q xs + num q ys
num-append q [] ys = omega arith
num-append q (x ∷ xs) ys = ground (arith, num-append q xs ys)

pub num-map : (q : ℕ → Bool) (f : ℕ → ℕ) (xs : List ℕ) → num q (map f xs) ≡ num (λ x. q (f x)) xs
num-map q f [] = refl
num-map q f (x ∷ xs) = ground (arith, num-map q f xs)

abbrev pub sorted : List ℕ → List ℕ
sorted xs = sort_num (λ p. p) xs

num-insert_num :
    (q : ℕ → Bool) (x : ℕ) (xs : List ℕ) → num q (insert_num (λ p. p) x xs) ≡ num q (x ∷ xs)
unfolding insert_num
num-insert_num q x [] = refl
num-insert_num q x (y ∷ xs) = ground (arith, num-insert_num q x xs)

num-sorted : (q : ℕ → Bool) (xs : List ℕ) → num q (sorted xs) ≡ num q xs
unfolding sort_num
num-sorted q [] = refl
num-sorted q (x ∷ xs) = ground (arith, num-insert_num q x (sorted xs), num-sorted q xs)

abbrev IsAscending : List ℕ → Type 0
IsAscending [] = Unit
IsAscending (x ∷ xs) = All (λ y. x ≤ y) xs × IsAscending xs

insert_num-All :
    (k x : ℕ) (xs : List ℕ)
    → k ≤ x
    → All (λ y. k ≤ y) xs
    → All (λ y. k ≤ y) (insert_num (λ p. p) x xs)
unfolding insert_num
insert_num-All k x [] h _ = (h, tt)
insert_num-All k x (y ∷ xs) h (hy, all) = elim (Bool-cases (ltb y x)) [
  | inl e ↦ rw e (hy, insert_num-All k x xs h all)
  | inr e ↦ rw e (h, (hy, all))
]

insert_num-IsAscending :
    (x : ℕ) (xs : List ℕ) → IsAscending xs → IsAscending (insert_num (λ p. p) x xs)
unfolding insert_num
insert_num-IsAscending x [] _ = (tt, tt)
insert_num-IsAscending x (y ∷ xs) (first, h) = elim (Bool-cases (ltb y x)) [
  | inl e ↦ rw e (insert_num-All y x xs (ground arith) first, insert_num-IsAscending x xs h)
  | inr e ↦
      let le : x ≤ y = ground arith in
      rw e ((le, All-map (λ z. y ≤ z) (λ z. x ≤ z) xs (λ z h'. omega arith) first), (first, h))
]

sorted-IsAscending : (xs : List ℕ) → IsAscending (sorted xs)
unfolding sort_num
sorted-IsAscending [] = tt
sorted-IsAscending (x ∷ xs) = insert_num-IsAscending x (sorted xs) (sorted-IsAscending xs)

-- An element that is counted is at least the least one.
least : (k v : ℕ) (xs : List ℕ) → All (λ y. k ≤ y) xs → 0 < num (λ x. x == v) xs → k ≤ v
least k v [] _ some_left = absurd (omega arith)
least k v (x ∷ xs) (hx, h) some_left = ground (arith, least k v xs h)

ascending-eq :
    (xs ys : List ℕ)
    → IsAscending xs
    → IsAscending ys
    → ((v : ℕ) → num (λ x. x == v) xs ≡ num (λ x. x == v) ys)
    → xs ≡ ys
ascending-eq [] [] _ _ _ = refl
ascending-eq [] (y ∷ ys) _ _ same = let e = same y in absurd (ground arith)
ascending-eq (x ∷ xs) [] _ _ same = let e = same x in absurd (ground arith)
ascending-eq (x ∷ xs) (y ∷ ys) (hx, h) (hy, k) same =
    let e : x ≡ y = heads in rw e (ap (◌∷◌ y) (ascending-eq xs ys h k λ v. tails v))
  where
    heads : x ≡ y
    heads =
        let a = same x in
        let b = same y in
        let c = least x y xs hx in let d = least y x ys hy in ground (arith, a, b, c, d)

    tails : (v : ℕ) → num (λ z. z == v) xs ≡ num (λ z. z == v) ys
    tails v = let a = same v in let e = heads in ground (arith, a, e)

-- Lists that every test counts the same are the same when they are sorted.
pub sorted-eq : (xs ys : List ℕ) → ((q : ℕ → Bool) → num q xs ≡ num q ys) → sorted xs ≡ sorted ys
sorted-eq xs ys same =
    ascending-eq (sorted xs) (sorted ys) (sorted-IsAscending xs) (sorted-IsAscending ys)
      λ v. num-sorted (λ x. x == v) xs ∙ (same (λ x. x == v) ∙ sym (num-sorted (λ x. x == v) ys))
