-- ===== src/Tests/Scripts.antt =====
-- Scripts at concrete inputs.
use phpatcher.Base.{Bytes, codes, ok, false, [], ◌∷◌, none, ◌≡◌, refl}
use phpatcher.Apply.{build_input, apply_ed_script}
use phpatcher.Apply.Plan.{simultaneous}
use phpatcher.Apply.Simultaneous.{apply_ed_script-simultaneous}
use phpatcher.Ed.{literal, change, append, FilePatch}
use phpatcher.Text.{split_lines, join_lines}

-- `4a`, then `2,3c`, on four lines.
abbrev two_edits : FilePatch
two_edits = record {
  commands =
      record { kind = append; start = 4; end = 4; input = literal (codes "tail") ∷ [] }
      ∷ record { kind = change; start = 2; end = 3; input = literal (codes "B") ∷ [] }
      ∷ [];
  creates = false;
}

abbrev four_lines : Bytes
four_lines = codes "a\nb\nc\nd\n"

apply_two_edits : apply_ed_script none two_edits four_lines ≡ ok (codes "a\nB\nd\ntail\n")
unfolding apply_ed_script build_input split_lines join_lines
apply_two_edits = refl

apply_ed_script-simultaneous_example :
    apply_ed_script none two_edits four_lines ≡ simultaneous none two_edits four_lines
apply_ed_script-simultaneous_example = apply_ed_script-simultaneous none two_edits four_lines
