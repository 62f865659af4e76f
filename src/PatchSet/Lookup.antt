-- ===== src/PatchSet/Lookup.antt =====
-- The binary searches of the index against a linear search through the sections of the patch file.
use phpatcher.Base.{
  if◌then◌else◌, Bool-cases, Bytes, equal, equal_iff, length, get_elem?, ok, Bool, true, false,
  ◌||◌, List, [], ◌∷◌, ◌++◌, inl, inr, Option, none, some, ◌≡◌, refl, sym, ap, subst, ◌∙◌, arith,
}
use phpatcher.Ed.{FilePatch}
use phpatcher.Order.{less, less_irrefl, less_of_less_le, less_of_ne}
use phpatcher.PatchSet.{
  Entry, PatchSet, path_of, basenames_of, first_duplicate, finalize, hit, find,
}
use phpatcher.Search.{insert_by, sort_by, lower_bound}
use phpatcher.Search.Bisect.{lower_bound-boundary}
use phpatcher.Search.Sorting.{AtLeast, Below, Above, IsSorted, sort_by-IsSorted, split_at_key}

-- The first section for a path.
abbrev pub section_for : Bytes → List Entry → Option FilePatch
section_for path [] = none
section_for path (e ∷ es) = if equal e.path path then some e.patch else section_for path es

abbrev pub contains : Bytes → List Bytes → Bool
contains b [] = false
contains b (x ∷ xs) = equal x b || contains b xs

pub equal_of_less : (a b : Bytes) → less a b ≡ true → equal a b ≡ false
equal_of_less a b h = elim (Bool-cases (equal a b)) [
  | inr e ↦ e
  | inl e ↦
      let loop : less a a ≡ true = subst (λ c. less a c ≡ true) (sym ((equal_iff a b).0 e)) h in
      cc (less_irrefl a)
]

pub equal_of_more : (a b : Bytes) → less b a ≡ true → equal a b ≡ false
equal_of_more a b h = elim (Bool-cases (equal a b)) [
  | inr e ↦ e
  | inl e ↦
      let loop : less a a ≡ true = subst (λ c. less c a ≡ true) (sym ((equal_iff a b).0 e)) h in
      cc (less_irrefl a)
]

-- The element at the lower bound of a sorted list is the first that is not smaller.
pub get_elem?-length :
    {A : Type 0} (ys zs : List A) → get_elem? (ys ++ zs) (length ys) ≡ get_elem? zs 0
get_elem?-length [] zs = refl
get_elem?-length (y ∷ ys) zs = get_elem?-length ys zs

pub lower_bound-split :
    {A : Type 0} (key : A → Bytes) (k : Bytes) (xs : List A)
    → IsSorted key xs
    → (ys : List A) × (zs : List A) × (xs ≡ ys ++ zs)
      × Below key k ys
      × AtLeast key k zs
      × IsSorted key zs
      × (get_elem? xs (lower_bound (λ x. less (key x) k) xs) ≡ get_elem? zs 0)
lower_bound-split key k xs s =
    let (ys, zs, split, below, above, sorted) = split_at_key key k xs s in
    (
      ys,
      zs,
      split,
      below,
      above,
      sorted,
      rw (split, lower_bound-boundary (λ x. less (key x) k) ys zs below above)
          (get_elem?-length ys zs),
    )

section_for-Below :
    (path : Bytes) (ys zs : List Entry)
    → Below path_of path ys
    → section_for path (ys ++ zs) ≡ section_for path zs
section_for-Below path [] zs h = refl
section_for-Below path (y ∷ ys) zs (h, hs) =
    rw (equal_of_less y.path path h) (section_for-Below path ys zs hs)

pub section_for-Above :
    (path : Bytes) (zs : List Entry) → Above path_of path zs → section_for path zs ≡ none
section_for-Above path [] h = refl
section_for-Above path (z ∷ zs) (h, hs) =
    rw (equal_of_more z.path path h) (section_for-Above path zs hs)

pub Above-of_AtLeast :
    {A : Type 0} (key : A → Bytes) (j k : Bytes) (xs : List A)
    → less j k ≡ true
    → AtLeast key k xs
    → Above key j xs
Above-of_AtLeast key j k [] h all = tt
Above-of_AtLeast key j k (x ∷ xs) h (hx, all) =
    (less_of_less_le j k (key x) h hx, Above-of_AtLeast key j k xs h all)

-- On a sorted index the binary search finds what the linear search finds.
pub find-section_for :
    (set : PatchSet) (path : Bytes)
    → IsSorted path_of set.index
    → find set path ≡ section_for path set.index
unfolding find
find-section_for set path s =
    let (ys, zs, split, below, above, sorted, at) = lower_bound-split path_of path set.index s in
    rw at (
      head zs above sorted
      ∙ sym (section_for-Below path ys zs below)
      ∙ ap (section_for path) (sym split))
  where
    head :
        (zs : List Entry)
        → AtLeast path_of path zs
        → IsSorted path_of zs
        → hit path (get_elem? zs 0) ≡ section_for path zs
    head [] a s = refl
    head (z ∷ zs) (h, hs) (rest, s) = elim (Bool-cases (equal z.path path)) [
      | inl e ↦ rw e
      | inr e ↦
          rw (e, hit)
            (sym (
              section_for-Above path zs
                (Above-of_AtLeast path_of path z.path zs (less_of_ne z.path path h e) rest)))
    ]

section_for-insert_by :
    (path : Bytes) (e : Entry) (es : List Entry)
    → section_for path (insert_by path_of e es) ≡ section_for path (e ∷ es)
unfolding insert_by
section_for-insert_by path e [] = refl
section_for-insert_by path e (f ∷ es) = elim (Bool-cases (less f.path e.path)) [
  | inr h ↦ rw (h, insert_by)
  | inl h ↦
      rw (h, insert_by)
        (ground (
          arith,
          equal_of_less f.path e.path h,
          equal_iff f.path e.path,
          equal_iff f.path path,
          equal_iff e.path path,
          section_for-insert_by path e es,
        ))
]

section_for-sort_by :
    (path : Bytes) (es : List Entry) → section_for path (sort_by path_of es) ≡ section_for path es
unfolding sort_by
section_for-sort_by path [] = refl
section_for-sort_by path (e ∷ es) =
    section_for-insert_by path e (sort_by path_of es)
    ∙ ap (λ (r : Option FilePatch). if equal e.path path then some e.patch else r)
        (section_for-sort_by path es)

pub finalize_shape :
    (entries : List Entry) (set : PatchSet)
    → finalize entries ≡ ok set
    → (first_duplicate (sort_by path_of entries) ≡ none)
      × (set ≡ record {
        index = sort_by path_of entries;
        basenames = basenames_of (sort_by path_of entries);
      })
unfolding finalize
finalize_shape entries set h = ground arith

-- After a successful `finalize`, the index finds for each path what a linear search through the
-- sections of the patch finds.
pub find-finalize :
    (entries : List Entry) (set : PatchSet) (path : Bytes)
    → finalize entries ≡ ok set
    → find set path ≡ section_for path entries
find-finalize entries set path h =
    let (_, shape) = finalize_shape entries set h in
    rw shape (
      find-section_for
        (record {
          index = sort_by path_of entries;
          basenames = basenames_of (sort_by path_of entries);
        })
        path (sort_by-IsSorted path_of entries)
      ∙ section_for-sort_by path entries)
