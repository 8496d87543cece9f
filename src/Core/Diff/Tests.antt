-- ===== src/Core/Diff/Tests.antt =====
-- `simple_diff` of patch.rs on the source's own test input.
use role_n.Prelude.{ℕ, ◌≤◌, ◌≡◌, refl}
use role_n.Core.Text.{codes, lines}
use role_n.Core.Diff.{edits, simple_diff}
use role_n.Core.Diff.Spec.{old_side, new_side, kept, Common, diff_minimal}

diff_marks_changes :
    simple_diff (codes "a\nb\nc\n") (codes "a\nB\nc\n") ≡ codes "  a\n- b\n+ B\n  c\n"
unfolding simple_diff lines
diff_marks_changes = refl

diff_minimal_example :
    (old_side (edits (codes "a\nb\n") (codes "b\nc\n")) ≡ lines (codes "a\nb\n"))
    × (new_side (edits (codes "a\nb\n") (codes "b\nc\n")) ≡ lines (codes "b\nc\n"))
    × ((n : ℕ)
        → Common (lines (codes "a\nb\n")) (lines (codes "b\nc\n")) n
        → n ≤ kept (edits (codes "a\nb\n") (codes "b\nc\n")))
diff_minimal_example = diff_minimal (codes "a\nb\n") (codes "b\nc\n")
