-- ===== src/Collector.antt =====
-- tools/changes.cpp, lines 116 to 180 and 576 to 591: the callbacks that collect the changes of a file
-- from the hunks of libgit2. A `Change` is that of Generator.
pub mod Contents
pub mod Placed
pub mod Edits
pub mod Diff
pub mod Patch
pub mod Corpora
use phpatcher.Base.{
  ◌==◌, if◌then◌else◌, Bytes, ℕ, ◌+◌, ◌-◌, Bool, true, false, not, List, [], ◌∷◌, ◌++◌, foldl,
}
use phpatcher.Generator.{Change}

unfoldable pub drop_last_if : ℕ → Bytes → Bytes
drop_last_if n [] = []
drop_last_if n (c ∷ []) = if c == n then [] else c ∷ []
drop_last_if n (c ∷ d ∷ s) = c ∷ drop_last_if n (d ∷ s)

-- The content of a line of the diff, without its end.
unfoldable pub strip_eol : Bytes → Bytes
unfolding drop_last_if
strip_eol s = drop_last_if b'\r' (drop_last_if b'\n' s)

pub record DiffPayload : Type 0 where
  pub changes : List Change
  pub in_change : Bool
  pub current : Change
  pub last_old : ℕ

-- `Change{}`.
abbrev pub empty_change : Change
empty_change = record { old_start = 0; old_count = 0; append_after = 0; added = [] }

abbrev pub empty_payload : DiffPayload
empty_payload = record { changes = []; in_change = false; current = empty_change; last_old = 0 }

unfoldable pub flush : DiffPayload → DiffPayload
flush p = if not p.in_change then p else record p {
  changes = p.changes ++ p.current ∷ [];
  current = empty_change;
  in_change = false;
}

unfoldable pub start_change : ℕ → ℕ → DiffPayload → DiffPayload
start_change old_start append_after p = if p.in_change then p else record p {
  in_change = true;
  current = record empty_change { old_start = old_start; append_after = append_after };
}

-- A call of one of the two callbacks, with the fields that they read: the line number or the text.
pub data Callback : Type 0 where
  hunk context deletion : ℕ → Callback
  addition : Bytes → Callback
  other_line : Callback

unfoldable pub call : DiffPayload → Callback → DiffPayload
unfolding flush start_change strip_eol
call p (hunk old_start) = record (flush p) { last_old = old_start - 1 }
call p (context old_lineno) = record (flush p) { last_old = old_lineno }
call p (deletion old_lineno) =
    let q = start_change old_lineno (old_lineno - 1) p in
    record q {
      current = record q.current { old_count = q.current.old_count + 1 };
      last_old = old_lineno;
    }
call p (addition content) =
    let q = start_change 0 p.last_old p in
    record q { current = record q.current { added = q.current.added ++ strip_eol content ∷ [] } }
call p other_line = p

-- The calls of `git_diff_buffers`, and the `flush` behind them.
unfoldable pub diff_buffers : List Callback → List Change
unfolding call
diff_buffers calls = (flush (foldl call empty_payload calls)).changes
