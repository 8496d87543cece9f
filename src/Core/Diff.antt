-- ===== src/Core/Diff.antt =====
-- The line diff for previews, `simple_diff` of rolen-core/src/patch.rs: a table of the lengths of
-- longest common subsequences, filled from the end, and a walk through it from the start.
pub mod Spec
mod Tests
use role_n.Prelude.{
  ℕ, zero, suc, ◌+◌, max, List, [], ◌∷◌, ◌++◌, map, if◌then◌else◌, leb, ◌==◌, nat_eq, list_eq,
  flat_map,
}
use role_n.Core.Types.{Text}
use role_n.Core.Text.{codes, lines}

pub data Edit : Type 0 where
  keep drop add : Text → Edit

abbrev pub at0 : List ℕ → ℕ
at0 [] = 0
at0 (n ∷ _) = n

abbrev pub tail {ℓ} : {A : Type ℓ} → List A → List A
tail [] = []
tail (_ ∷ xs) = xs

abbrev pub head_row : List (List ℕ) → List ℕ
head_row [] = []
head_row (row ∷ _) = row

-- Row `i` of the table from row `i + 1`, its last column first.
next_row : Text → List Text → List ℕ → List ℕ
next_row a [] below = 0 ∷ []
next_row a (b ∷ ys) below =
    let right = next_row a ys (tail below) in
    (if a == b then at0 (tail below) + 1 else max (at0 below) (at0 right)) ∷ right

abbrev zeros : List Text → List ℕ
zeros [] = 0 ∷ []
zeros (_ ∷ ys) = 0 ∷ zeros ys

pub table : List Text → List Text → List (List ℕ)
unfolding next_row
table [] ys = zeros ys ∷ []
table (a ∷ xs) ys = let rest = table xs ys in next_row a ys (head_row rest) ∷ rest

-- `rows` is the table from row `i` and column `j` on.
pub walk : List Text → List Text → List (List ℕ) → List Edit
walk [] ys rows = map add ys
walk (a ∷ xs) [] rows = map drop (a ∷ xs)
walk (a ∷ xs) (b ∷ ys) rows =
    let both = walk xs ys (map tail (tail rows)) in
    let left = walk xs (b ∷ ys) (tail rows) in
    let right = walk (a ∷ xs) ys (map tail rows) in
    if a == b
    then keep a ∷ both
    else if leb (at0 (tail (head_row rows))) (at0 (head_row (tail rows)))
    then drop a ∷ left
    else add b ∷ right

abbrev render : Edit → Text
render (keep line) = codes "  " ++ (line ++ b'\n' ∷ [])
render (drop line) = codes "- " ++ (line ++ b'\n' ∷ [])
render (add line) = codes "+ " ++ (line ++ b'\n' ∷ [])

pub edits : Text → Text → List Edit
unfolding table walk lines
edits old new = walk (lines old) (lines new) (table (lines old) (lines new))

pub simple_diff : Text → Text → Text
unfolding edits
simple_diff old new = flat_map render (edits old new)
