-- ===== src/Collector/Diff.antt =====
-- The calls of libgit2 for a diff, and the changes that are collected from them.
use phpatcher.Base.{
  if◌then◌else◌, Bytes, length, is_empty, length-append, All, All-append, ok, ℕ, ◌+◌, ◌-◌, ◌<◌,
  Bool, true, false, List, [], ◌∷◌, ◌++◌, foldl, append-nil, append_assoc, ◌≡◌, refl, sym, ap,
  subst, ◌∙◌, arith,
}
use phpatcher.Apply.{RefResolver, validate_command_order, apply_ed_script}
use phpatcher.Collector.{
  DiffPayload, empty_change, flush, start_change, Callback, hunk, context, deletion, addition,
  other_line, call, diff_buffers,
}
use phpatcher.Collector.Contents.{IsContentOf, strip_eol-IsContentOf}
use phpatcher.Collector.Edits.{Edits, Edits-nothing, Edits-keep, Edits-change}
use phpatcher.Collector.Placed.{Plain, change_at}
use phpatcher.Generator.{Change}
use phpatcher.Generator.Sections.{commands_for}
use phpatcher.Hooks.{resolve}
use phpatcher.Number.{int64_max}
use phpatcher.Text.{split_lines, join_lines}

-- The calls that describe the edit of `old` to `new` behind the first `n` lines: the hunks go from the
-- top down and skip only lines that stay; the lines of a hunk carry their numbers in the old file;
-- where lines are replaced, the removed lines come before the added ones, whose contents have their
-- ends. A line of `old` is what patch.cpp makes of it, with its `\r` if it has one; an added line is its
-- text. The flag says that lines have been added since the last line that stayed.
pub data Describes : Bool → ℕ → List Callback → List Bytes → List Bytes → Type 0 where
  stop : {b : Bool} {n : ℕ} {ls : List Bytes} → Describes b n [] ls ls
  skip_to :
      {b : Bool} {n : ℕ} {calls : List Callback} {old new : List Bytes} (same : List Bytes)
      → Describes false (n + length same) calls old new
      → Describes b n (hunk (n + length same + 1) ∷ calls) (same ++ old) (same ++ new)
  -- The hunk of an empty file is said to begin at line 0.
  from_nothing :
      {b : Bool} {calls : List Callback} {old new : List Bytes}
      → Describes false 0 calls old new
      → Describes b 0 (hunk 0 ∷ calls) old new
  stay :
      {b : Bool} {n : ℕ} {calls : List Callback} {old new : List Bytes} (l : Bytes)
      → Describes false (n + 1) calls old new
      → Describes b n (context (n + 1) ∷ calls) (l ∷ old) (l ∷ new)
  remove :
      {n : ℕ} {calls : List Callback} {old new : List Bytes} (l : Bytes)
      → Describes false (n + 1) calls old new
      → Describes false n (deletion (n + 1) ∷ calls) (l ∷ old) new
  add :
      {b : Bool} {n : ℕ} {calls : List Callback} {old new : List Bytes} (content l : Bytes)
      → IsContentOf content l
      → Describes true n calls old new
      → Describes b n (addition content ∷ calls) old (l ∷ new)
  note :
      {b : Bool} {n : ℕ} {calls : List Callback} {old new : List Bytes}
      → Describes b n calls old new
      → Describes b n (other_line ∷ calls) old new

-- The added lines.
abbrev pub added_lines :
    {b : Bool} {n : ℕ} {calls : List Callback} {old new : List Bytes}
    → Describes b n calls old new
    → List Bytes
added_lines stop = []
added_lines (skip_to same d) = added_lines d
added_lines (from_nothing d) = added_lines d
added_lines (stay l d) = added_lines d
added_lines (remove l d) = added_lines d
added_lines (add content l end d) = l ∷ added_lines d
added_lines (note d) = added_lines d

-- Outside of a change, behind line `n`.
abbrev idle : List Change → Change → ℕ → DiffPayload
idle changes current n = record {
  changes = changes;
  in_change = false;
  current = current;
  last_old = n;
}

-- In a change, behind line `n`.
abbrev busy : List Change → Change → ℕ → DiffPayload
busy changes current n = record {
  changes = changes;
  in_change = true;
  current = current;
  last_old = n;
}

abbrev collected : DiffPayload → List Callback → List Change
collected p calls = (flush (foldl call p calls)).changes

is_empty-append {ℓ} : {A : Type ℓ} (xs : List A) (y : A) → is_empty (xs ++ y ∷ []) ≡ false
is_empty-append [] y = refl
is_empty-append (x ∷ xs) y = refl

mutual
  unfolding call flush start_change

  from_idle :
      {b : Bool} {n : ℕ} {calls : List Callback} {old new : List Bytes} (done : List Change)
      (c : Change) (d : Describes b n calls old new)
      → All Plain (added_lines d)
      → (cs : List Change) × (collected (idle done c n) calls ≡ done ++ cs) × Edits n cs old new
  from_idle {n = n} done c (stop {ls = ls}) ps = ([], sym (append-nil done), Edits-nothing n ls)
  from_idle {n = n} done c (skip_to {calls = calls} {old = old} {new = new} same d) ps =
      let e : n + length same + 1 - 1 ≡ n + length same = omega arith in
      let (cs, shape, edits) = from_idle done c d ps in
      (
        cs,
        ap (λ (k : ℕ). collected (idle done c k) calls) e ∙ shape,
        Edits-keep n same cs old new edits,
      )
  from_idle done c (from_nothing d) ps = from_idle done c d ps
  from_idle {n = n} done c (stay {old = old} {new = new} l d) ps =
      let (cs, shape, edits) = from_idle done c d ps in
      (cs, shape, Edits-keep n (l ∷ []) cs old new edits)
  from_idle {n = n} done c (remove {calls = calls} l d) ps =
      let e : n + 1 - 1 ≡ n = omega arith in
      let (cs, shape, edits) = from_busy done n (l ∷ []) [] tt (λ _. (refl, refl)) refl d ps in
      (
        cs,
        ap
              (λ (k : ℕ).
                collected
                  (busy done (record (change_at n (l ∷ []) []) { append_after = k }) (n + 1)) calls)
              e
            ∙ shape,
        edits,
      )
  from_idle {n = n} done c (add {calls = calls} content l has_end d) (p, ps) =
      let (cs, shape, edits) = from_busy done n [] (l ∷ []) (p, tt) (λ h. cc) (omega arith) d ps in
      (
        cs,
        ap (λ (t : Bytes). collected (busy done (change_at n [] (t ∷ [])) n) calls)
              (strip_eol-IsContentOf has_end)
            ∙ shape,
        edits,
      )
  from_idle done c (note d) ps = from_idle done c d ps

  from_busy :
      {b : Bool} {n : ℕ} {calls : List Callback} {old new : List Bytes} (done : List Change) (m : ℕ)
      (removed added : List Bytes)
      → All Plain added
      → (b ≡ false → (added ≡ []) × (is_empty removed ≡ false))
      → n ≡ m + length removed
      → (d : Describes b n calls old new) → All Plain (added_lines d)
      → (cs : List Change) × (collected (busy done (change_at m removed added) n) calls
          ≡ done ++ cs)
        × Edits m cs (removed ++ old) (added ++ new)
  from_busy done m removed added plain fresh e (stop {ls = ls}) ps = (
    change_at m removed added ∷ [],
    refl,
    Edits-change m removed added [] ls ls plain (Edits-nothing (m + length removed) ls),
  )
  from_busy {n = n} done m removed added plain fresh e
        (skip_to {calls = calls} {old = old} {new = new} same d) ps =
      let k : n + length same + 1 - 1 ≡ n + length same = omega arith in
      let change = change_at m removed added in
      let (cs, shape, edits) = from_idle (done ++ change ∷ []) empty_change d ps in
      (
        change ∷ cs,
        ap (λ (p : ℕ). collected (idle (done ++ change ∷ []) empty_change p) calls) k
            ∙ (shape ∙ append_assoc done (change ∷ []) cs),
        Edits-change m removed added cs (same ++ old) (same ++ new) plain (
            subst (λ (p : ℕ). Edits p cs (same ++ old) (same ++ new)) e
              (Edits-keep n same cs old new edits)),
      )
  from_busy done m removed added plain fresh e (from_nothing {old = old} {new = new} d) ps =
      let change = change_at m removed added in
      let (cs, shape, edits) = from_idle (done ++ change ∷ []) empty_change d ps in
      (
        change ∷ cs,
        shape ∙ append_assoc done (change ∷ []) cs,
        Edits-change m removed added cs old new plain
            (subst (λ (p : ℕ). Edits p cs old new) e edits),
      )
  from_busy {n = n} done m removed added plain fresh e (stay {old = old} {new = new} l d) ps =
      let change = change_at m removed added in
      let (cs, shape, edits) = from_idle (done ++ change ∷ []) empty_change d ps in
      (
        change ∷ cs,
        shape ∙ append_assoc done (change ∷ []) cs,
        Edits-change m removed added cs (l ∷ old) (l ∷ new) plain (
            subst (λ (p : ℕ). Edits p cs (l ∷ old) (l ∷ new)) e
              (Edits-keep n (l ∷ []) cs old new edits)),
      )
  from_busy {n = n} done m removed added plain fresh e
        (remove {calls = calls} {old = old} {new = new} l d) ps =
      let (none_added, some_removed) = fresh refl in
      let grown : record (change_at m removed added) { old_count = length removed + 1 }
          ≡ change_at m (removed ++ l ∷ []) [] =
        rw (none_added, some_removed, length-append removed (l ∷ []), is_empty-append removed l)
          refl in
      let longer : length (removed ++ l ∷ []) ≡ length removed + 1 =
        length-append removed (l ∷ []) in
      let (cs, shape, edits) =
        from_busy done m (removed ++ l ∷ []) [] tt (λ _. (refl, is_empty-append removed l))
          (omega (arith, e, longer)) d ps in
      (
        cs,
        ap (λ (c : Change). collected (busy done c (n + 1)) calls) grown ∙ shape,
        rw (none_added, sym (append_assoc removed (l ∷ []) old)) edits,
      )
  from_busy {n = n} done m removed added plain fresh e
        (add {calls = calls} {new = new} content l has_end d) (p, ps) =
      let (cs, shape, edits) =
        from_busy done m removed (added ++ l ∷ []) (All-append Plain added (l ∷ []) plain (p, tt))
          (λ h. cc) e d ps in
      (
        cs,
        ap (λ (t : Bytes). collected (busy done (change_at m removed (added ++ t ∷ [])) n) calls)
              (strip_eol-IsContentOf has_end)
            ∙ shape,
        rw (sym (append_assoc added (l ∷ []) new)) edits,
      )
  from_busy done m removed added plain fresh e (note d) ps =
      from_busy done m removed added plain fresh e d ps

-- No added line that is collected is read as a reference.
pub diff_buffers-Plain :
    (calls : List Callback) (old new : List Bytes) (d : Describes false 0 calls old new)
    → All Plain (added_lines d)
    → All (λ c. All Plain c.added) (diff_buffers calls)
unfolding diff_buffers
diff_buffers-Plain calls old new d ps =
    let (cs, shape, edits) = from_idle [] empty_change d ps in rw shape (edits.plain)

-- For calls that describe an edit of the lines of a text, where no added line reads as a reference, the
-- commands of the collected changes, applied to the text, give the new lines, joined with the flag of
-- the old text: added lines stand there without their `\n` or `\r\n`, the lines that stay with their
-- `\r`.
pub diff_buffers-apply_ed_script :
    (resolve : RefResolver) (calls : List Callback) (text : Bytes) (new : List Bytes)
    (d : Describes false 0 calls (split_lines text).0 new)
    → All Plain (added_lines d)
    → length (split_lines text).0 < int64_max
    → apply_ed_script resolve
        (record { commands = commands_for (diff_buffers calls); creates = false })
        text
      ≡ ok (join_lines new (if is_empty text then true else (split_lines text).1))
unfolding apply_ed_script validate_command_order diff_buffers
diff_buffers-apply_ed_script resolve calls text new d ps short =
    let (cs, shape, edits) = from_idle [] empty_change d ps in
    rw (shape, edits.ordered int64_max (omega (arith, short)), edits.applies resolve [] refl) refl
