-- ===== src/IndexFile/Keys.antt =====
-- The loops over the keys: what the writer's puts into the buffer, and what the reader's finds in it.
use phpatcher.Base.{
  if◌then◌else◌, Bool-cases, Bytes, equal, equal_iff, length, All, ok, ℕ, ◌+◌, ◌%◌, ◌^◌, false,
  List, [], ◌∷◌, ◌++◌, map, append-nil, append_assoc, inl, inr, none, ◌≡◌, refl, sym, ap, ◌∙◌,
  arith,
}
use phpatcher.Dict.{lookup, IsMap}
use phpatcher.IndexFile.{
  put_postings, is_capped, Written, put_key, put_keys, Posting, emplace, load_keys,
}
use phpatcher.IndexFile.Layout.{need-append, u32-put_u32, unpack, load_postings-put_postings}
use phpatcher.Search.{unique}
use phpatcher.Words.{IsU32, put_u32}

-- The pairs that the cap lets through, and their bytes.
abbrev pub kept : ℕ → List (Bytes × List ℕ) → List (Bytes × List ℕ)
kept cap [] = []
kept cap ((key, postings) ∷ lines) =
    let rest = kept cap lines in if is_capped cap postings then rest else (key, postings) ∷ rest

unfoldable pub keys_text : List (Bytes × List ℕ) → Bytes
keys_text [] = []
keys_text ((key, postings) ∷ lines) = put_key key postings ++ keys_text lines

abbrev pub count_postings : List (Bytes × List ℕ) → ℕ
count_postings [] = 0
count_postings ((key, postings) ∷ lines) = length postings + count_postings lines

pub Written-eq :
    (w v : Written)
    → w.buf ≡ v.buf
    → w.keys_written ≡ v.keys_written
    → w.postings_written ≡ v.postings_written
    → w ≡ v
Written-eq w v e f g = λ i. record { buf = e i; keys_written = f i; postings_written = g i }

pub put_keys-kept :
    (cap : ℕ) (lines : List (Bytes × List ℕ)) (w : Written)
    → put_keys cap lines w ≡ record {
      buf = w.buf ++ keys_text (kept cap lines);
      keys_written = w.keys_written + length (kept cap lines);
      postings_written = w.postings_written + count_postings (kept cap lines);
    }
unfolding put_keys keys_text
put_keys-kept cap [] w = Written-eq _ _ (sym (append-nil w.buf)) (omega arith) (omega arith)
put_keys-kept cap ((key, postings) ∷ lines) w = elim (Bool-cases (is_capped cap postings)) [
  | inl e ↦ rw e (put_keys-kept cap lines w)
  | inr e ↦
      rw (e, put_keys-kept cap lines)
        (Written-eq _ _ (append_assoc w.buf (put_key key postings) (keys_text (kept cap lines)))
          (omega arith) (omega arith))
]

-- The reader's pairs.
abbrev pub loaded_lines : List (Bytes × List ℕ) → List (Bytes × List Posting)
loaded_lines [] = []
loaded_lines ((key, postings) ∷ lines) = (key, map unpack postings) ∷ loaded_lines lines

-- The lengths are those of 32-bit words.
abbrev pub FitsKeys : List (Bytes × List ℕ) → Type 0
FitsKeys lines = All (λ kv. IsU32 (length kv.0) × IsU32 (length kv.1)) lines

abbrev pub NewTo : List (Bytes × List Posting) → List (Bytes × List ℕ) → Type 0
NewTo lines new = All (λ kv. lookup kv.0 lines ≡ none) new

lookup-push :
    (k j : Bytes) (v : List Posting) (m : List (Bytes × List Posting))
    → lookup j m ≡ none
    → equal k j ≡ false
    → lookup j (m ++ (k, v) ∷ []) ≡ none
unfolding lookup
lookup-push k j v [] _ other = rw other refl
lookup-push k j v ((i, w) ∷ m) absent other = ground (arith, lookup-push k j v m)

NewTo-push :
    (lines : List (Bytes × List Posting)) (key : Bytes) (v : List Posting)
    (new : List (Bytes × List ℕ))
    → NewTo lines new
    → lookup key new ≡ none
    → NewTo (lines ++ (key, v) ∷ []) new
unfolding lookup
NewTo-push lines key v [] _ _ = tt
NewTo-push lines key v ((j, ps) ∷ new) (absent, more) h = elim (Bool-cases (equal j key)) [
  | inl e ↦ cc (rw e at h)
  | inr e ↦ (
    lookup-push key j v lines absent (ground (arith, equal_iff j key, equal_iff key j)),
    NewTo-push lines key v new more (rw e at h),
  )
]

put_key_lem :
    (key : Bytes) (postings : List ℕ) (tail : Bytes)
    → IsU32 (length key)
    → IsU32 (length postings)
    → put_key key postings ++ tail
      ≡ put_u32 (length key)
        ++ (key ++ (put_u32 (length postings) ++ (put_postings postings ++ tail)))
unfolding put_key
put_key_lem key postings tail hk hp =
    let small_key : length key % 2 ^ 32 ≡ length key = omega arith in
    let small_count : length postings % 2 ^ 32 ≡ length postings = omega arith in
    let count = put_u32 (length postings) in
    rw (small_key, small_count)
      (append_assoc (put_u32 (length key)) (key ++ (count ++ put_postings postings)) tail
        ∙ ap (◌++◌ (put_u32 (length key))) (
            append_assoc key (count ++ put_postings postings) tail
            ∙ ap (◌++◌ key) (append_assoc count (put_postings postings) tail)))

emplace_new :
    (key : Bytes) (v : List Posting) (lines : List (Bytes × List Posting))
    → lookup key lines ≡ none
    → emplace key v lines ≡ lines ++ (key, v) ∷ []
unfolding emplace
emplace_new key v lines absent = rw (emplace, absent) refl

pub load_keys-keys_text :
    (lines : List (Bytes × List ℕ)) (acc : List (Bytes × List Posting)) (rest : Bytes)
    → FitsKeys lines
    → IsMap lines
    → NewTo acc lines
    → load_keys (length lines) acc (keys_text lines ++ rest) ≡ ok (acc ++ loaded_lines lines, rest)
unfolding load_keys keys_text
load_keys-keys_text [] acc rest _ _ _ = rw append-nil refl
load_keys-keys_text ((key, postings) ∷ lines) acc rest ((hk, hp), fits) (once, unique)
      (absent, new) =
    let count = put_u32 (length postings) in
    let tail = keys_text lines ++ rest in
    rw
      (
        append_assoc (put_key key postings) (keys_text lines) rest,
        put_key_lem key postings tail hk hp,
        u32-put_u32 (length key) (key ++ (count ++ (put_postings postings ++ tail))) hk,
        need-append (length key) key (count ++ (put_postings postings ++ tail)) refl,
        u32-put_u32 (length postings) (put_postings postings ++ tail) hp,
        load_postings-put_postings postings tail,
        emplace_new key (map unpack postings) acc absent,
      )
      (load_keys-keys_text lines (acc ++ (key, map unpack postings) ∷ []) rest fits unique
          (NewTo-push acc key (map unpack postings) lines new once)
        ∙ ap (λ (t : List (Bytes × List Posting)). ok (t, rest))
            (append_assoc acc ((key, map unpack postings) ∷ []) (loaded_lines lines)))

lookup-kept-none :
    (cap : ℕ) (key : Bytes) (lines : List (Bytes × List ℕ))
    → lookup key lines ≡ none
    → lookup key (kept cap lines) ≡ none
unfolding lookup
lookup-kept-none cap key [] _ = refl
lookup-kept-none cap key ((j, ps) ∷ lines) h = ground (arith, lookup-kept-none cap key lines)

pub kept-IsMap : (cap : ℕ) (lines : List (Bytes × List ℕ)) → IsMap lines → IsMap (kept cap lines)
kept-IsMap cap [] _ = tt
kept-IsMap cap ((key, ps) ∷ lines) (once, unique) =
    ground (arith, lookup-kept-none cap key lines, kept-IsMap cap lines unique)

pub kept-FitsKeys :
    (cap : ℕ) (lines : List (Bytes × List ℕ)) → FitsKeys lines → FitsKeys (kept cap lines)
kept-FitsKeys cap [] _ = tt
kept-FitsKeys cap ((key, ps) ∷ lines) (fits, more) = ground (arith, kept-FitsKeys cap lines more)

pub NewTo-nil : (new : List (Bytes × List ℕ)) → NewTo [] new
unfolding lookup
NewTo-nil [] = tt
NewTo-nil (kv ∷ new) = (refl, NewTo-nil new)
