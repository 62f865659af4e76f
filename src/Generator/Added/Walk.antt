-- ===== src/Generator/Added/Walk.antt =====
-- The loop over a block: the lines of its runs, and the lines between them.
use phpatcher.Base.{
  ltb, ◌==◌, ==_iff, Bool-cases, Bytes, length, drop, take-append-drop, drop-all, drop-drop, All,
  All-drop, All-map, ℕ, zero, suc, ◌+◌, ◌-◌, ◌≤◌, ◌<◌, Bool, false, List, [], ◌∷◌, ◌≢◌, inl, inr,
  Option, some, ◌≡◌, refl, ap, subst, ◌∙◌, arith,
}
use phpatcher.Apply.{RefResolver}
use phpatcher.Collector.Placed.{Plain}
use phpatcher.Factorize.{Run}
use phpatcher.Factorize.Sorted.{IsChain}
use phpatcher.Generator.{Corpus}
use phpatcher.Generator.Added.{at, then_lines, literals, emit_run, emit_loop}
use phpatcher.Generator.Added.Reading.{Emits, Emits-then, Emits-nil, Emits-literals}

pub drop-at : (i : ℕ) (xs : List Bytes) → i < length xs → drop i xs ≡ at xs i ∷ drop (i + 1) xs
drop-at zero [] h = absurd (omega arith)
drop-at zero (x ∷ xs) h = refl
drop-at (suc i) [] h = absurd (omega arith)
drop-at (suc i) (x ∷ xs) h =
    let e : suc i + 1 ≡ suc (i + 1) = omega arith in rw e (drop-at i xs (omega arith))

-- Where no run begins at a position, the runs ahead begin behind it.
pub nonempty_ahead :
    (r : Run) (runs : List Run) (pos : ℕ)
    → pos ≤ r.block_begin
    → r.block_begin ≢ pos
    → r.block_begin < r.block_end
    → All (λ s. r.block_end ≤ s.block_begin) runs
    → All (λ s. pos + 1 ≤ s.block_begin) (r ∷ runs)
nonempty_ahead r runs pos here other nonempty first = (
  omega arith,
  All-map (λ s. r.block_end ≤ s.block_begin) (λ s. pos + 1 ≤ s.block_begin) runs
      (λ s le. omega arith) first,
)

module _ (resolve : RefResolver) (L : Bytes → Bytes → Type 0) (same : (x : Bytes) → L x x)
    (corpus : Corpus) (file : ℕ → Bytes) (hash : Bool) (block : List Bytes)
    (plain : All Plain block) (normalized : Bool) where
  -- A run within the block that is written so that it can be read.
  pub record IsWritten (r : Run) : Type 0 where
    pub nonempty : r.block_begin < r.block_end
    pub bound : r.block_end ≤ length block
    pub emits :
        Emits resolve L
          (literals corpus file hash block r.block_begin r.block_end)
          (emit_run corpus file hash block normalized r)

  emit_literal :
      (pos : ℕ) (rest : Option (List Bytes))
      → pos < length block
      → Emits resolve L (drop (pos + 1) block) rest
      → Emits resolve L (drop pos block) (then_lines (some (at block pos ∷ [])) rest)
  emit_literal pos rest lt h =
      let shape = drop-at pos block lt in
      let (first, _) : Plain (at block pos) × All Plain (drop (pos + 1) block) =
        rw shape at (All-drop Plain pos block plain) in
      rw shape
        (Emits-then resolve L (Emits-literals resolve L (at block pos ∷ []) same (first, tt)) h)

  emit_front :
      (r : Run) (pos : ℕ) (rest : Option (List Bytes))
      → r.block_begin ≡ pos
      → IsWritten r
      → Emits resolve L (drop r.block_end block) rest
      → Emits resolve L
          (drop pos block)
          (then_lines (emit_run corpus file hash block normalized r) rest)
  emit_front r pos rest start w h =
      let count = r.block_end - r.block_begin in
      let sum : r.block_begin + count ≡ r.block_end = omega (arith, w.nonempty) in
      let behind : drop count (drop r.block_begin block) ≡ drop r.block_end block =
        rw (drop-drop r.block_begin count block, sum) refl in
      let shape =
        take-append-drop count (drop r.block_begin block) ∙ ap (λ (k : ℕ). drop k block) start in
      subst
        (λ t. Emits resolve L t (then_lines (emit_run corpus file hash block normalized r) rest))
        shape (Emits-then resolve L w.emits (rw behind h))

  at_end :
      (pos : ℕ)
      → length block ≤ pos
      → pos ≤ length block
      → Emits resolve L (drop pos block) (some [])
  at_end pos ge le =
      let e : pos ≡ length block = omega arith in rw (e, drop-all block) (Emits-nil resolve L)

  -- The rest of a block from `pos` on, with the runs that are still to come.
  pub emit_loop-Emits :
      (fuel : ℕ) (runs : List Run) (pos : ℕ)
      → length block - pos ≤ fuel
      → pos ≤ length block
      → All IsWritten runs
      → All (λ r. pos ≤ r.block_begin) runs
      → IsChain runs
      → Emits resolve L (drop pos block) (emit_loop corpus file hash block normalized fuel runs pos)
  unfolding emit_loop
  emit_loop-Emits zero runs pos enough le written ahead chain =
      let done : ltb pos (length block) ≡ false = ground arith in
      rw done (at_end pos (omega arith) le)
  emit_loop-Emits (suc fuel) [] pos enough le written ahead chain =
      elim (Bool-cases (ltb pos (length block))) [
        | inl e ↦ rw e (
            emit_literal pos _ (ground arith)
              (emit_loop-Emits fuel [] (pos + 1) (omega arith) (ground arith) tt tt tt))
        | inr e ↦ rw e (at_end pos (ground arith) le)
      ]
  emit_loop-Emits (suc fuel) (r ∷ runs) pos enough le (w, written) (here, ahead) (first, chain) =
      elim (Bool-cases (ltb pos (length block))) [
        | inl e ↦ elim (Bool-cases (r.block_begin == pos)) [
          | inl f ↦
              let start : r.block_begin ≡ pos = (==_iff r.block_begin pos).0 f in
              let behind =
                emit_loop-Emits fuel runs r.block_end (omega (arith, w.nonempty)) w.bound written
                  first chain in
              rw (e, f) (emit_front r pos _ start w behind)
          | inr f ↦
              rw (e, f)
                (emit_literal pos _ (ground arith) (
                  emit_loop-Emits fuel (r ∷ runs) (pos + 1) (omega arith) (ground arith)
                    (w, written)
                    (nonempty_ahead r runs pos here
                      (λ same_pos. cc ((==_iff r.block_begin pos).1 same_pos)) w.nonempty first)
                    (first, chain)))
        ]
        | inr e ↦ rw e (at_end pos (ground arith) le)
      ]
