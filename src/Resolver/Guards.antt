-- ===== src/Resolver/Guards.antt =====
-- What the resolver returns, and that its cache does not show.
use phpatcher.Base.{
  ltb, ==_iff, Bool-cases, Option-cases, Bytes, equal, equal_iff, length, take, drop, length-append,
  take-append-drop, length-take, take-length, drop-length, length-drop, ok, ℕ, ◌+◌, ◌-◌, ◌≤◌, Bool,
  true, false, not, ◌&&◌, ◌||◌, List, [], ◌∷◌, ◌++◌, ◌↔◌, ◌⊎◌, inl, inr, Option, none, some, ◌≡◌,
  refl, sym, ap, ◌∙◌, arith,
}
use phpatcher.Dict.{lookup, assign, lookup-assign}
use phpatcher.Ed.{EdRef}
use phpatcher.RefHash.{RefHash, ref_hash, same_hash}
use phpatcher.Resolver.{
  Disk, split_corpus_lines, RefCache, full_path, load_file, cached_lines, run_of, run_length,
  length_matches, check_run, resolve_lines, resolve_cached, resolve_ref,
}
use phpatcher.Text.{newline}
use phpatcher.Text.Lines.{terminated}

-- Each cached entry is what the disk still gives.
abbrev pub IsCache : Disk → RefCache → Type 0
IsCache disk cache =
    (full : Bytes) (entry : Option (List Bytes))
    → lookup full cache ≡ some entry
    → entry ≡ load_file disk full

resolve_ref_lem :
    (disk : Disk) (base_dir : Bytes) (ref : EdRef)
    → resolve_ref disk base_dir ref
      ≡ resolve_lines
          (full_path base_dir ref.path)
          ref
          (load_file disk (full_path base_dir ref.path))
unfolding resolve_ref cached_lines lookup
resolve_ref_lem disk base_dir ref = refl

IsCache-assign :
    (disk : Disk) (cache : RefCache) (full : Bytes)
    → IsCache disk cache
    → IsCache disk (assign full (load_file disk full) cache)
IsCache-assign disk cache full valid f entry h =
    let look = lookup-assign full f (load_file disk full) cache in
    elim (Bool-cases (equal full f)) [
      | inl same ↦
          let found : some (load_file disk full) ≡ some entry = sym (look ∙ rw same) ∙ h in
          rw (← (equal_iff full f).0 same) (cc)
      | inr other ↦ valid f entry (sym (look ∙ rw other) ∙ h)
    ]

-- While the files do not change, a resolver with a cache answers as one without, and its cache
-- stays right.
pub resolve_cached-resolve_ref :
    (disk : Disk) (base_dir : Bytes) (cache : RefCache) (ref : EdRef)
    → IsCache disk cache
    → ((resolve_cached disk base_dir cache ref).1 ≡ resolve_ref disk base_dir ref)
      × IsCache disk (resolve_cached disk base_dir cache ref).0
unfolding resolve_cached cached_lines
resolve_cached-resolve_ref disk base_dir cache ref valid =
    let full = full_path base_dir ref.path in
    elim (Option-cases (lookup full cache)) [
      | inl miss ↦
          rw (miss, cached_lines, resolve_ref_lem disk base_dir ref)
            (refl, IsCache-assign disk cache full valid)
      | inr (entry, hit) ↦
          rw (hit, cached_lines, resolve_ref_lem disk base_dir ref)
            (ap (resolve_lines full ref) (valid full entry hit), valid)
    ]

-- The lines `first` to `last` of a file: what is in front of them, and what is behind.
pub record IsRange (first last : ℕ) (file lines : List Bytes) : Type 0 where
  pub front : List Bytes
  pub back : List Bytes
  pub split : file ≡ front ++ (lines ++ back)
  pub begins : length front + 1 ≡ first
  pub ends : length front + length lines ≡ last

-- A reference resolves to these lines: its file can be read, they are the lines of its range, of which
-- there is one at least, and every guard that the reference carries holds of them: the number of bytes
-- of the lines, each with its newline, and both lanes of the hash of these bytes.
pub record Resolves (disk : Disk) (base_dir : Bytes) (ref : EdRef) (lines : List Bytes)
    : Type 0 where
  pub content : Bytes
  pub readable : disk (full_path base_dir ref.path) ≡ some content
  pub some_lines : 1 ≤ length lines
  pub range : IsRange ref.begin ref.end (split_corpus_lines content) lines
  pub length_guard : (ref.bytes ≡ none) ⊎ (ref.bytes ≡ some (length (terminated lines)))
  pub hash_guard :
      (ref.has_hash ≡ false)
      ⊎ ((ref.hash.a ≡ (ref_hash (terminated lines)).a)
          × (ref.hash.b ≡ (ref_hash (terminated lines)).b))

pub run_of-IsRange :
    (first last : ℕ) (file : List Bytes)
    → 1 ≤ first
    → first ≤ last
    → last ≤ length file
    → IsRange first last file (run_of first last file) × (1 ≤ length (run_of first last file))
run_of-IsRange first last file a b c =
    let front = take (first - 1) file in
    let rest = drop (first - 1) file in
    let count = last - (first - 1) in
    let long : length front ≡ first - 1 = omega (arith, length-take (first - 1) file, a, b, c) in
    let size : length (take count rest) ≡ count =
      omega (arith, length-take count rest, length-drop (first - 1) file, a, b, c) in
    (
      record {
        front = front;
        back = drop count rest;
        split = sym (
            ap (λ (t : List Bytes). front ++ t) (take-append-drop count rest)
            ∙ take-append-drop (first - 1) file);
        begins = omega (arith, long, a);
        ends = omega (arith, long, size, a, b);
      },
      omega (arith, size, a, b),
    )

IsRange-run_of :
    (first last : ℕ) (file lines : List Bytes)
    → 1 ≤ length lines
    → IsRange first last file lines
    → (1 ≤ first) × (first ≤ last) × (last ≤ length file) × (lines ≡ run_of first last file)
IsRange-run_of first last file lines some_lines r =
    let whole : length file ≡ length r.front + (length lines + length r.back) =
      ap (λ (t : List Bytes). length t) r.split
      ∙ omega (arith, length-append r.front (lines ++ r.back), length-append lines r.back) in
    let skip_front : first - 1 ≡ length r.front = omega (arith, r.begins) in
    let count : last - length r.front ≡ length lines = omega (arith, r.ends) in
    (
      omega (arith, r.begins),
      omega (arith, r.begins, r.ends, some_lines),
      omega (arith, whole, r.ends),
      rw
          (
            skip_front,
            count,
            r.split,
            drop-length r.front (lines ++ r.back),
            take-length lines r.back,
          )
          refl,
    )

pub length-terminated : (lines : List Bytes) → run_length lines ≡ length (terminated lines)
length-terminated [] = refl
length-terminated (l ∷ lines) =
    omega (arith, length-append l (newline ∷ terminated lines), length-terminated lines)

length_matches_iff :
    (bytes : Option ℕ) (n : ℕ)
    → (length_matches bytes n ≡ true) ↔ ((bytes ≡ none) ⊎ (bytes ≡ some n))
unfolding length_matches
length_matches_iff none n = ((λ _. inl refl), λ _. refl)
length_matches_iff (some m) n = (
  (λ h. inr (ap (λ (k : ℕ). some k) (sym ((==_iff n m).0 h)))),
  (λ h. elim h [ inl bad ↦ cc | inr e ↦ let same : m ≡ n = cc in (==_iff n m).1 (sym same) ]),
)

same_hash_iff :
    (has_hash : Bool) (x y : RefHash)
    → ((has_hash && not (same_hash x y)) ≡ false)
      ↔ ((has_hash ≡ false) ⊎ ((y.a ≡ x.a) × (y.b ≡ x.b)))
unfolding same_hash
same_hash_iff false x y = ((λ _. inl refl), λ _. refl)
same_hash_iff true x y = (
  (λ h. inr (ground arith, ground arith)),
  λ h. elim h [ inl bad ↦ cc | inr (e, f) ↦ ground arith ],
)

check_run_sound :
    (ref : EdRef) (file lines : List Bytes)
    → check_run ref file ≡ ok lines
    → (1 ≤ ref.begin)
      × (ref.begin ≤ ref.end)
      × (ref.end ≤ length file)
      × (lines ≡ run_of ref.begin ref.end file)
      × (length_matches ref.bytes (run_length lines) ≡ true)
      × ((ref.has_hash && not (same_hash (ref_hash (terminated lines)) ref.hash)) ≡ false)
unfolding check_run
check_run_sound ref file lines h =
    let run = run_of ref.begin ref.end file in
    elim (Bool-cases (ltb ref.begin 1 || ltb ref.end ref.begin || ltb (length file) ref.end)) [
      | inl bad ↦ absurd (ground arith)
      | inr good ↦ elim (Bool-cases (length_matches ref.bytes (run_length run))) [
        | inr bad ↦ absurd (ground arith)
        | inl long ↦
            elim (Bool-cases
              (ref.has_hash && not (same_hash (ref_hash (terminated run)) ref.hash))) [
                | inl bad ↦ absurd (ground arith)
                | inr same ↦
                    let exact : lines ≡ run = ground arith in
                    (ground arith, ground arith, ground arith, exact, rw exact long, rw exact same)
              ]
      ]
    ]

check_run_complete :
    (ref : EdRef) (file : List Bytes)
    → 1 ≤ ref.begin
    → ref.begin ≤ ref.end
    → ref.end ≤ length file
    → let run = run_of ref.begin ref.end file in
      length_matches ref.bytes (run_length run) ≡ true
      → (ref.has_hash && not (same_hash (ref_hash (terminated run)) ref.hash)) ≡ false
      → check_run ref file ≡ ok run
unfolding check_run
check_run_complete ref file a b c d e =
    let range : (ltb ref.begin 1 || ltb ref.end ref.begin || ltb (length file) ref.end) ≡ false =
      ground arith in
    rw (range, d, e)

-- A reference resolves to lines exactly when its file can be read, they are the lines of its range, of
-- which there is one at least, and, where it carries them, its byte count is that of the lines with
-- their newlines, and both lanes of its hash are those of the hash of these bytes.
pub resolve_ref_iff :
    (disk : Disk) (base_dir : Bytes) (ref : EdRef) (lines : List Bytes)
    → (resolve_ref disk base_dir ref ≡ ok lines) ↔ Resolves disk base_dir ref lines
unfolding load_file resolve_lines
resolve_ref_iff disk base_dir ref lines =
    let full = full_path base_dir ref.path in (forward (disk full) refl, backward)
  where
    full : Bytes
    full = full_path base_dir ref.path

    forward :
        (content : Option Bytes)
        → disk full ≡ content
        → resolve_ref disk base_dir ref ≡ ok lines
        → Resolves disk base_dir ref lines
    forward none unread h =
        let failed : resolve_ref disk base_dir ref ≡ resolve_lines full ref none =
          resolve_ref_lem disk base_dir ref ∙ rw (unread, load_file) in
        cc
    forward (some text) read h =
        let step : resolve_ref disk base_dir ref ≡ check_run ref (split_corpus_lines text) =
          resolve_ref_lem disk base_dir ref ∙ rw (read, load_file) in
        let (a, b, c, d, e, f) =
          check_run_sound ref (split_corpus_lines text) lines (sym step ∙ h) in
        let (range, some_lines) =
          run_of-IsRange ref.begin ref.end (split_corpus_lines text) a b c in
        record {
          content = text;
          readable = read;
          some_lines = rw d some_lines;
          range = rw d range;
          length_guard =
              rw (length-terminated lines) at
                ((length_matches_iff ref.bytes (run_length lines)).0 e);
          hash_guard = (same_hash_iff ref.has_hash (ref_hash (terminated lines)) ref.hash).0 f;
        }

    backward : Resolves disk base_dir ref lines → resolve_ref disk base_dir ref ≡ ok lines
    backward r =
        let (a, b, c, d) =
          IsRange-run_of ref.begin ref.end (split_corpus_lines r.content) lines r.some_lines
            r.range in
        let long : length_matches ref.bytes (run_length lines) ≡ true =
          (length_matches_iff ref.bytes (run_length lines)).1
            (rw (length-terminated lines) (r.length_guard)) in
        let same =
          (same_hash_iff ref.has_hash (ref_hash (terminated lines)) ref.hash).1 r.hash_guard in
        resolve_ref_lem disk base_dir ref
        ∙ rw (r.readable, load_file)
            (check_run_complete ref (split_corpus_lines r.content) a b c (rw (← d) long)
                (rw (← d) same)
              ∙ ap ok (sym d))
