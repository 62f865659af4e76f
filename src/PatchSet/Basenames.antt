-- ===== src/PatchSet/Basenames.antt =====
-- The basename filter: it answers whether some indexed path has the basename.
use phpatcher.Base.{
  Bool-cases, Bytes, equal, equal_iff, get_elem?, ok, Bool, true, false, ◌||◌, List, [], ◌∷◌, ◌++◌,
  map, inl, inr, some, ◌≡◌, refl, sym, ap, subst, ◌∙◌, arith,
}
use phpatcher.Ed.{FilePatch}
use phpatcher.Order.{less, less_irrefl, less_of_ne}
use phpatcher.PatchSet.{
  Entry, PatchSet, path_of, basename_of, basenames_of, finalize, find, found_at, has_basename,
}
use phpatcher.PatchSet.Lookup.{
  section_for, contains, equal_of_less, equal_of_more, lower_bound-split, Above-of_AtLeast,
  finalize_shape, find-finalize,
}
use phpatcher.Search.{insert_by, sort_by, unique}
use phpatcher.Search.Sorting.{AtLeast, Below, Above, IsSorted, sort_by-IsSorted}

abbrev self : Bytes → Bytes
self b = b

contains-insert_by :
    (b x : Bytes) (xs : List Bytes) → contains b (insert_by self x xs) ≡ contains b (x ∷ xs)
unfolding insert_by
contains-insert_by b x [] = refl
contains-insert_by b x (y ∷ ys) = ground (arith, contains-insert_by b x ys)

contains-sort_by : (b : Bytes) (xs : List Bytes) → contains b (sort_by self xs) ≡ contains b xs
unfolding sort_by
contains-sort_by b [] = refl
contains-sort_by b (x ∷ xs) =
    contains-insert_by b x (sort_by self xs)
    ∙ ap (λ (t : Bool). equal x b || t) (contains-sort_by b xs)

contains-unique : (b : Bytes) (xs : List Bytes) → contains b (unique xs) ≡ contains b xs
unfolding unique
contains-unique b [] = refl
contains-unique b (x ∷ []) = refl
contains-unique b (x ∷ y ∷ ys) = ground (arith, equal_iff x y, contains-unique b (y ∷ ys))

unique-AtLeast : (k : Bytes) (xs : List Bytes) → AtLeast self k xs → AtLeast self k (unique xs)
unfolding unique
unique-AtLeast k [] h = tt
unique-AtLeast k (x ∷ []) h = h
unique-AtLeast k (x ∷ y ∷ ys) (h, hs) = elim (Bool-cases (equal x y)) [
  | inl e ↦ rw (e, unique) (unique-AtLeast k (y ∷ ys) hs)
  | inr e ↦ rw (e, unique) (h, unique-AtLeast k (y ∷ ys) hs)
]

unique-IsSorted : (xs : List Bytes) → IsSorted self xs → IsSorted self (unique xs)
unfolding unique
unique-IsSorted [] s = tt
unique-IsSorted (x ∷ []) s = s
unique-IsSorted (x ∷ y ∷ ys) (h, s) = elim (Bool-cases (equal x y)) [
  | inl e ↦ rw (e, unique) (unique-IsSorted (y ∷ ys) s)
  | inr e ↦ rw (e, unique) (unique-AtLeast x (y ∷ ys) h, unique-IsSorted (y ∷ ys) s)
]

contains-Below :
    (b : Bytes) (ys zs : List Bytes) → Below self b ys → contains b (ys ++ zs) ≡ contains b zs
contains-Below b [] zs h = refl
contains-Below b (y ∷ ys) zs (h, hs) = rw (equal_of_less y b h) (contains-Below b ys zs hs)

contains-Above : (b : Bytes) (zs : List Bytes) → Above self b zs → contains b zs ≡ false
contains-Above b [] h = refl
contains-Above b (z ∷ zs) (h, hs) = rw (equal_of_more z b h) (contains-Above b zs hs)

-- On sorted basenames the binary search finds what a linear search finds.
has_basename-contains :
    (set : PatchSet) (b : Bytes)
    → IsSorted self set.basenames
    → has_basename set b ≡ contains b set.basenames
unfolding has_basename
has_basename-contains set b s =
    let (ys, zs, split, below, above, sorted, at) = lower_bound-split self b set.basenames s in
    rw at (head zs above sorted ∙ sym (contains-Below b ys zs below) ∙ ap (contains b) (sym split))
  where
    head :
        (zs : List Bytes)
        → AtLeast self b zs
        → IsSorted self zs
        → found_at b (get_elem? zs 0) ≡ contains b zs
    head [] h s = refl
    head (z ∷ zs) (h, hs) (rest, s) = elim (Bool-cases (equal z b)) [
      | inl e ↦
          let same = (equal_iff z b).0 e in
          let back : less b z ≡ false =
            subst (λ (c : Bytes). less b c ≡ false) (sym same) (less_irrefl b) in
          rw (e, back)
      | inr e ↦
          let more = less_of_ne z b h e in
          rw (e, more) (sym (contains-Above b zs (Above-of_AtLeast self b z zs more rest)))
    ]

abbrev names : List Entry → List Bytes
names = map (λ e. basename_of e.path)

contains-names_insert :
    (b : Bytes) (e : Entry) (es : List Entry)
    → contains b (names (insert_by path_of e es)) ≡ contains b (names (e ∷ es))
unfolding insert_by
contains-names_insert b e [] = refl
contains-names_insert b e (f ∷ es) = ground (arith, contains-names_insert b e es)

contains-names_sort :
    (b : Bytes) (es : List Entry) → contains b (names (sort_by path_of es)) ≡ contains b (names es)
unfolding sort_by
contains-names_sort b [] = refl
contains-names_sort b (e ∷ es) =
    contains-names_insert b e (sort_by path_of es)
    ∙ ap (λ (t : Bool). equal (basename_of e.path) b || t) (contains-names_sort b es)

basenames_of-IsSorted : (es : List Entry) → IsSorted self (basenames_of es)
unfolding basenames_of
basenames_of-IsSorted es = unique-IsSorted _ (sort_by-IsSorted self (names es))

contains-basenames_of :
    (b : Bytes) (es : List Entry) → contains b (basenames_of es) ≡ contains b (names es)
unfolding basenames_of
contains-basenames_of b es = contains-unique b _ ∙ contains-sort_by b (names es)

contains-names_of :
    (path : Bytes) (es : List Entry) (fp : FilePatch)
    → section_for path es ≡ some fp
    → contains (basename_of path) (names es) ≡ true
contains-names_of path [] fp h = cc
contains-names_of path (e ∷ es) fp h = elim (Bool-cases (equal e.path path)) [
  | inl same ↦
      rw ((equal_iff e.path path).0 same, (equal_iff (basename_of path) (basename_of path)).1 refl)
  | inr other ↦ rw (contains-names_of path es fp (rw other at h)) (ground arith)
]

-- After a successful `finalize`, the filter passes exactly the basenames of the sections' paths.
pub has_basename-finalize :
    (entries : List Entry) (set : PatchSet) (b : Bytes)
    → finalize entries ≡ ok set
    → has_basename set b ≡ contains b (map (λ e. basename_of e.path) entries)
has_basename-finalize entries set b h =
    let sorted = sort_by path_of entries in
    let (_, shape) = finalize_shape entries set h in
    rw shape (
      has_basename-contains (record { index = sorted; basenames = basenames_of sorted }) b
        (basenames_of-IsSorted sorted)
      ∙ contains-basenames_of b sorted
      ∙ contains-names_sort b entries)

-- So the filter never turns away a path that the index holds.
pub find-has_basename :
    (entries : List Entry) (set : PatchSet) (path : Bytes) (fp : FilePatch)
    → finalize entries ≡ ok set
    → find set path ≡ some fp
    → has_basename set (basename_of path) ≡ true
find-has_basename entries set path fp h f =
    has_basename-finalize entries set (basename_of path) h
    ∙ contains-names_of path entries fp (sym (find-finalize entries set path h) ∙ f)
