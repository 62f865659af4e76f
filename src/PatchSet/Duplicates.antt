-- ===== src/PatchSet/Duplicates.antt =====
-- Which sections `finalize` accepts, and the order of the index that it builds.
use phpatcher.Base.{
  Bool-cases, Bytes, equal, equal_iff, Result, ok, err, Bool, true, false, not, ◌&&◌, ◌||◌, List,
  [], ◌∷◌, map, Perm, ◌↔◌, inl, inr, none, ◌≡◌, refl, sym, ap, ap₂, ◌∙◌, arith,
}
use phpatcher.Order.{less, less_of_ne}
use phpatcher.PatchSet.{Entry, PatchSet, path_of, first_duplicate, finalize}
use phpatcher.PatchSet.Lookup.{contains, equal_of_more, Above-of_AtLeast, finalize_shape}
use phpatcher.Search.{insert_by, sort_by}
use phpatcher.Search.Sorting.{AtLeast, Above, IsSorted, IsStrict, sort_by-IsSorted, sort_by-perm}

abbrev pub is_ok {ℓ κ} : {E : Type ℓ} {A : Type κ} → Result E A → Bool
is_ok (ok a) = true
is_ok (err e) = false

abbrev pub paths : List Entry → List Bytes
paths = map path_of

-- No two elements are equal.
abbrev pub distinct : List Bytes → Bool
distinct [] = true
distinct (x ∷ xs) = not (contains x xs) && distinct xs

contains-paths_insert :
    (b : Bytes) (e : Entry) (es : List Entry)
    → contains b (paths (insert_by path_of e es)) ≡ contains b (paths (e ∷ es))
unfolding insert_by
contains-paths_insert b e [] = refl
contains-paths_insert b e (f ∷ es) = ground (arith, contains-paths_insert b e es)

distinct-insert :
    (e : Entry) (es : List Entry)
    → distinct (paths (insert_by path_of e es)) ≡ distinct (paths (e ∷ es))
unfolding insert_by
distinct-insert e [] = refl
distinct-insert e (f ∷ es) = ground (
  arith,
  equal_iff e.path f.path,
  equal_iff f.path e.path,
  contains-paths_insert f.path e es,
  distinct-insert e es,
)

contains-paths_sort :
    (b : Bytes) (es : List Entry) → contains b (paths (sort_by path_of es)) ≡ contains b (paths es)
unfolding sort_by
contains-paths_sort b [] = refl
contains-paths_sort b (e ∷ es) =
    contains-paths_insert b e (sort_by path_of es)
    ∙ ap (λ (t : Bool). equal e.path b || t) (contains-paths_sort b es)

distinct-sort : (es : List Entry) → distinct (paths (sort_by path_of es)) ≡ distinct (paths es)
unfolding sort_by
distinct-sort [] = refl
distinct-sort (e ∷ es) =
    distinct-insert e (sort_by path_of es)
    ∙ ap₂ (λ (s t : Bool). not s && t) (contains-paths_sort e.path es) (distinct-sort es)

Above-of_sorted :
    (e f : Entry) (es : List Entry)
    → less f.path e.path ≡ false
    → equal f.path e.path ≡ false
    → AtLeast path_of f.path es
    → Above path_of e.path (f ∷ es)
Above-of_sorted e f es le ne all =
    let more = less_of_ne f.path e.path le ne in
    (more, Above-of_AtLeast path_of e.path f.path es more all)

contains-paths-Above :
    (b : Bytes) (es : List Entry) → Above path_of b es → contains b (paths es) ≡ false
contains-paths-Above b [] h = refl
contains-paths-Above b (e ∷ es) (h, hs) =
    rw (equal_of_more e.path b h) (contains-paths-Above b es hs)

-- Among sorted entries a look at the neighbours is enough.
first_duplicate-distinct :
    (es : List Entry)
    → IsSorted path_of es
    → (first_duplicate es ≡ none) ↔ (distinct (paths es) ≡ true)
unfolding first_duplicate
first_duplicate-distinct [] s = ((λ _. refl), (λ _. refl))
first_duplicate-distinct (e ∷ []) s = ((λ _. refl), (λ _. refl))
first_duplicate-distinct (e ∷ f ∷ es) (le, s) = elim (Bool-cases (equal f.path e.path)) [
  | inl same ↦ rw (same, first_duplicate) ((λ h. cc), (λ h. cc))
  | inr other ↦
      let absent = contains-paths-Above e.path es (Above-of_sorted e f es le.0 other s.0).1 in
      rw (other, absent, first_duplicate) (first_duplicate-distinct (f ∷ es) s)
]

first_duplicate-IsStrict :
    (es : List Entry) → IsSorted path_of es → first_duplicate es ≡ none → IsStrict path_of es
unfolding first_duplicate
first_duplicate-IsStrict [] s h = tt
first_duplicate-IsStrict (e ∷ []) s h = (tt, tt)
first_duplicate-IsStrict (e ∷ f ∷ es) (le, s) h = elim (Bool-cases (equal f.path e.path)) [
  | inl same ↦ absurd (ground arith)
  | inr other ↦
      (Above-of_sorted e f es le.0 other s.0, first_duplicate-IsStrict (f ∷ es) s (ground arith))
]

-- `finalize` accepts the sections exactly when no two of them are for the same path.
pub finalize-distinct :
    (entries : List Entry) → (is_ok (finalize entries) ≡ true) ↔ (distinct (paths entries) ≡ true)
unfolding finalize
finalize-distinct entries =
    let same =
      first_duplicate-distinct (sort_by path_of entries) (sort_by-IsSorted path_of entries) in
    (
      (λ h.
          let once : first_duplicate (sort_by path_of entries) ≡ none = ground arith in
          sym (distinct-sort entries) ∙ same.0 once),
      (λ h. rw (same.1 (distinct-sort entries ∙ h), is_ok)),
    )

-- The index that it builds is strictly ascending, and holds the sections and nothing else.
pub finalize-IsStrict :
    (entries : List Entry) (set : PatchSet)
    → finalize entries ≡ ok set
    → IsStrict path_of set.index × Perm set.index entries
finalize-IsStrict entries set h =
    let (none_twice, shape) = finalize_shape entries set h in
    rw shape (
      first_duplicate-IsStrict _ (sort_by-IsSorted path_of entries) none_twice,
      sort_by-perm path_of entries,
    )
