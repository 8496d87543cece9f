-- ===== src/Core/Patch/Tests.antt =====
-- The source's own tests of patch.rs, and the theorems at concrete inputs.
use mathlib.Core.List.{cons≢nil}
use role_n.Prelude.{ℕ, ◌+◌, ◌-◌, ◌≤◌, ◌<◌, ◌≡◌, refl, ◌⊎◌, some, List, [], ◌∷◌, ◌++◌, length, arith}
use role_n.Core.Types.{Text}
use role_n.Core.Text.{codes, join}
use role_n.Core.Patch.{
  value, reject, panic, Hunk, locate, match_positions, choose, splice, parse_hunks, apply_patch,
  old_lines,
}
use role_n.Core.Patch.Locate.{Matches, locate_value}
use role_n.Core.Patch.Apply.{splice_replaces}

applies_at_declared_position :
    apply_patch (codes "a\nb\nc\n") (codes "@@ -2,1 +2,1 @@\n-b\n+B\n") ≡ value (codes "a\nB\nc\n")
unfolding apply_patch
applies_at_declared_position = refl

fuzzy_offset :
    apply_patch (codes "I1\nI2\na\nb\nc\n") (codes "@@ -2,3 +2,3 @@\n a\n-b\n+B\n c\n")
    ≡ value (codes "I1\nI2\na\nB\nc\n")
unfolding apply_patch
fuzzy_offset = refl

rejects_ambiguous_match :
    apply_patch (codes "a\nb\na\nb\n") (codes "@@ -2,2 +2,2 @@\n-a\n-b\n+A\n+B\n") ≡ reject
unfolding apply_patch
rejects_ambiguous_match = refl

creates_file :
    apply_patch [] (codes "--- /dev/null\n+++ b/new.txt\n@@ -0,0 +1,2 @@\n+hello\n+world\n")
    ≡ value (codes "hello\nworld\n")
unfolding apply_patch
creates_file = refl

multiple_hunks :
    apply_patch
      (codes "1\n2\n3\n4\n5\n")
      (codes "@@ -1,1 +1,1 @@\n-1\n+one\n@@ -5,1 +5,1 @@\n-5\n+five\n")
    ≡ value (codes "one\n2\n3\n4\nfive\n")
unfolding apply_patch
multiple_hunks = refl

rejects_garbage : apply_patch (codes "x") (codes "not a diff") ≡ reject
unfolding apply_patch
rejects_garbage = refl

panics_on_short_file : apply_patch (codes "a\n") (codes "@@ -1,2 +1,1 @@\n-a\n-b\n+c\n") ≡ panic
unfolding apply_patch
panics_on_short_file = refl

abbrev doc : List Text
doc = codes "a" ∷ codes "b" ∷ codes "a" ∷ []

abbrev hunk : ℕ → List Text → List Text → Hunk
hunk start old new = record { old_start = start; old_side = old; new_side = new }

abbrev declared_a : Hunk
declared_a = hunk 3 (codes "a" ∷ []) (codes "A" ∷ [])

abbrev lost_a : Hunk
lost_a = hunk 2 (codes "a" ∷ []) (codes "A" ∷ [])

program : Unit {0}
unfolding locate match_positions choose splice parse_hunks apply_patch old_lines join
program = tt

declared_located : locate doc declared_a ≡ value 2
unfolding program
declared_located = refl

lost_rejected : locate doc lost_a ≡ reject
unfolding program
lost_rejected = refl

locate_value_example :
    Matches doc (codes "a" ∷ []) 2
    × (2 + 1 ≤ length doc)
    × ((q : ℕ) → Matches doc (codes "a" ∷ []) q → (q ≡ 2) ⊎ (2 ≡ declared_a.old_start - 1))
locate_value_example = locate_value doc declared_a 2 cons≢nil declared_located

splice_replaces_example :
    (before : List Text) × (after : List Text) × (length before ≡ 2)
    × (doc ≡ before ++ (declared_a.old_side ++ after))
    × (splice doc 2 declared_a ≡ before ++ (declared_a.new_side ++ after))
splice_replaces_example = splice_replaces doc declared_a 2 declared_located

abbrev old : Text
old = codes "a\nb\n"

abbrev grow : Text
grow = codes "@@ -1,1 +1,2 @@\n-a\n+A\n+C\n"

abbrev grow_hunk : Hunk
grow_hunk = hunk 1 (codes "a" ∷ []) (codes "A" ∷ codes "C" ∷ [])

parse_grow : parse_hunks grow ≡ some (grow_hunk ∷ [])
unfolding program
parse_grow = refl

apply_grow : apply_patch old grow ≡ value (codes "A\nC\nb\n")
unfolding program
apply_grow = refl

abbrev context : Text
context = codes "@@ -1,2 +1,2 @@\n a\n b\n"

abbrev context_hunk : Hunk
context_hunk = hunk 1 (codes "a" ∷ codes "b" ∷ []) (codes "a" ∷ codes "b" ∷ [])

parse_context : parse_hunks context ≡ some (context_hunk ∷ [])
unfolding program
parse_context = refl

apply_context : apply_patch old context ≡ value old
unfolding program
apply_context = refl

-- The same diff turns the line ends of a file with carriage returns.
drops_carriage_returns : apply_patch (codes "a\r\nb\r\n") context ≡ value (codes "a\nb\n")
unfolding program
drops_carriage_returns = refl

short : length (old_lines (codes "a\n")) < length context_hunk.old_side
unfolding program
short = omega arith
