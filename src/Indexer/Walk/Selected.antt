-- ===== src/Indexer/Walk/Selected.antt =====
-- The walk against a list of all files: a directory that is left out is as good as a test on each file.
use phpatcher.Base.{
  if◌then◌else◌, Bool-cases, Bytes, Bool, true, false, not, ◌&&◌, List, [], ◌∷◌, ◌++◌, inl, inr,
  ◌≡◌, refl, arith,
}
use phpatcher.Indexer.{NormFile}
use phpatcher.Indexer.Walk.{Listing, no_entry, directory, regular, special, ext_of, is_in, walk}

-- A file with the directories that it is in, from the innermost.
pub record Visit : Type 0 where
  pub inside_of : List Bytes
  pub name : Bytes
  pub file : NormFile

abbrev pub all_files : (Bytes → Bytes) → List Bytes → Bytes → Listing → List Visit
all_files relative dirs above no_entry = []
all_files relative dirs above (directory name inside rest) =
    all_files relative (name ∷ dirs) (above ++ (name ++ b'/' ∷ [])) inside
    ++ all_files relative dirs above rest
all_files relative dirs above (regular name content rest) =
    record {
      inside_of = dirs;
      name = name;
      file = record { content = content; rel = relative (above ++ name) };
    }
    ∷ all_files relative dirs above rest
all_files relative dirs above (special name rest) = all_files relative dirs above rest

abbrev pub none_excluded : List Bytes → List Bytes → Bool
none_excluded excludes [] = true
none_excluded excludes (d ∷ dirs) = not (is_in d excludes) && none_excluded excludes dirs

-- The files with one of the extensions that are in no excluded directory.
abbrev pub selected : List Bytes → List Bytes → List Visit → List NormFile
selected excludes exts [] = []
selected excludes exts (v ∷ vs) =
    let others = selected excludes exts vs in
    if none_excluded excludes v.inside_of && is_in (ext_of v.name) exts
    then v.file ∷ others
    else others

module _ (relative : Bytes → Bytes) (excludes exts : List Bytes) where
  selected-append :
      (vs ws : List Visit)
      → selected excludes exts (vs ++ ws) ≡ selected excludes exts vs ++ selected excludes exts ws
  selected-append [] ws = refl
  selected-append (v ∷ vs) ws =
      elim (Bool-cases (none_excluded excludes v.inside_of && is_in (ext_of v.name) exts)) [
        | inl e ↦ rw (e, selected-append vs ws) refl
        | inr e ↦ rw (e, selected-append vs ws) refl
      ]

  -- Below an excluded directory nothing is selected.
  selected-excluded :
      (dirs : List Bytes) (above : Bytes) (l : Listing)
      → none_excluded excludes dirs ≡ false
      → selected excludes exts (all_files relative dirs above l) ≡ []
  selected-excluded dirs above no_entry h = refl
  selected-excluded dirs above (directory name inside rest) h =
      let below : none_excluded excludes (name ∷ dirs) ≡ false = ground (arith, h) in
      rw
        (
          selected-append (all_files relative (name ∷ dirs) (above ++ (name ++ b'/' ∷ [])) inside)
              (all_files relative dirs above rest),
          selected-excluded (name ∷ dirs) (above ++ (name ++ b'/' ∷ [])) inside below,
          selected-excluded dirs above rest h,
        )
        refl
  selected-excluded dirs above (regular name content rest) h =
      rw (h, selected-excluded dirs above rest h) refl
  selected-excluded dirs above (special name rest) h = selected-excluded dirs above rest h

  -- The walk gives the selected files, in their order.
  pub walk-selected :
      (dirs : List Bytes) (above : Bytes) (l : Listing)
      → none_excluded excludes dirs ≡ true
      → walk relative excludes exts above l
        ≡ selected excludes exts (all_files relative dirs above l)
  unfolding walk
  walk-selected dirs above no_entry h = refl
  walk-selected dirs above (directory name inside rest) h =
      let deeper = above ++ (name ++ b'/' ∷ []) in
      rw
        (selected-append (all_files relative (name ∷ dirs) deeper inside)
          (all_files relative dirs above rest))
        (elim (Bool-cases (is_in name excludes)) [
          | inl e ↦
              let below : none_excluded excludes (name ∷ dirs) ≡ false = rw e refl in
              rw
                (
                  e,
                  selected-excluded (name ∷ dirs) deeper inside below,
                  walk-selected dirs above rest h,
                )
                refl
          | inr e ↦
              let below : none_excluded excludes (name ∷ dirs) ≡ true = rw e h in
              rw
                (
                  e,
                  walk-selected (name ∷ dirs) deeper inside below,
                  walk-selected dirs above rest h,
                )
                refl
        ])
  walk-selected dirs above (regular name content rest) h =
      rw (h, walk-selected dirs above rest h) refl
  walk-selected dirs above (special name rest) h = walk-selected dirs above rest h
