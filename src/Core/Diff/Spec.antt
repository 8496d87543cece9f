-- ===== src/Core/Diff/Spec.antt =====
-- A diff shows both texts, and keeps xs many lines xs any alignment can.
use role_n.Prelude.{
  ℕ, suc, ◌≤◌, max, ◌≡◌, refl, List, [], ◌∷◌, map, if◌then◌else◌, ◌==◌, ==_iff, nat_eq, list_eq,
  arith,
}
use role_n.Core.Types.{Text}
use role_n.Core.Text.{lines}
use role_n.Core.Diff.{Edit, keep, drop, add, at0, tail, head_row, table, walk, edits}

-- The two sides that a list of edits shows.
abbrev pub old_side : List Edit → List Text
old_side [] = []
old_side (keep line ∷ es) = line ∷ old_side es
old_side (drop line ∷ es) = line ∷ old_side es
old_side (add line ∷ es) = old_side es

abbrev pub new_side : List Edit → List Text
new_side [] = []
new_side (keep line ∷ es) = line ∷ new_side es
new_side (drop line ∷ es) = new_side es
new_side (add line ∷ es) = line ∷ new_side es

abbrev pub kept : List Edit → ℕ
kept [] = 0
kept (keep line ∷ es) = suc (kept es)
kept (drop line ∷ es) = kept es
kept (add line ∷ es) = kept es

map-add-sides :
    (ys : List Text)
    → (old_side (map add ys) ≡ []) × (new_side (map add ys) ≡ ys) × (kept (map add ys) ≡ 0)
map-add-sides [] = (refl, refl, refl)
map-add-sides (b ∷ ys) = ground (arith, map-add-sides ys)

map-drop-sides :
    (xs : List Text)
    → (old_side (map drop xs) ≡ xs) × (new_side (map drop xs) ≡ []) × (kept (map drop xs) ≡ 0)
map-drop-sides [] = (refl, refl, refl)
map-drop-sides (a ∷ xs) = ground (arith, map-drop-sides xs)

walk-sides :
    (xs ys : List Text) (rows : List (List ℕ))
    → (old_side (walk xs ys rows) ≡ xs) × (new_side (walk xs ys rows) ≡ ys)
unfolding walk
walk-sides [] ys rows = ground (arith, map-add-sides ys)
walk-sides (a ∷ xs) [] rows = ground (arith, map-drop-sides xs)
walk-sides (a ∷ xs) (b ∷ ys) rows = ground (
  arith,
  ==_iff a b,
  walk-sides xs ys (map tail (tail rows)),
  walk-sides xs (b ∷ ys) (tail rows),
  walk-sides (a ∷ xs) ys (map tail rows),
)

-- The length of a longest common subsequence.
pub lcs : List Text → List Text → ℕ
lcs [] ys = 0
lcs (x ∷ xs) [] = 0
lcs (x ∷ xs) (y ∷ ys) = if x == y then suc (lcs xs ys) else max (lcs xs (y ∷ ys)) (lcs (x ∷ xs) ys)

head_row-map : (rows : List (List ℕ)) → tail (head_row rows) ≡ head_row (map tail rows)
head_row-map [] = refl
head_row-map (row ∷ rows) = refl

-- Dropping the first column of the table leaves the table of the shorter right side.
table-tail :
    (xs : List Text) (y : Text) (ys : List Text) → map tail (table xs (y ∷ ys)) ≡ table xs ys
unfolding table
table-tail [] y ys = refl
table-tail (x ∷ xs) y ys = rw (head_row-map (table xs (y ∷ ys)), table-tail xs y ys)

at0-table : (xs ys : List Text) → at0 (head_row (table xs ys)) ≡ lcs xs ys
unfolding table lcs
at0-table [] [] = refl
at0-table [] (y ∷ ys) = refl
at0-table (x ∷ xs) [] = refl
at0-table (x ∷ xs) (y ∷ ys) =
    rw
      (
        head_row-map (table xs (y ∷ ys)),
        table-tail xs y ys,
        at0-table xs ys,
        at0-table xs (y ∷ ys),
        at0-table (x ∷ xs) ys,
      )
      (ground arith)

tail-table : (x : Text) (xs ys : List Text) → tail (table (x ∷ xs) ys) ≡ table xs ys
unfolding table
tail-table x xs ys = refl

-- The walk keeps as many lines as the table promises.
kept-walk : (xs ys : List Text) → kept (walk xs ys (table xs ys)) ≡ lcs xs ys
unfolding walk lcs
kept-walk [] ys = ground (arith, map-add-sides ys)
kept-walk (x ∷ xs) [] = ground (arith, map-drop-sides xs)
kept-walk (x ∷ xs) (y ∷ ys) =
    rw
      (
        tail-table x xs (y ∷ ys),
        table-tail xs y ys,
        head_row-map (table (x ∷ xs) (y ∷ ys)),
        table-tail (x ∷ xs) y ys,
        at0-table xs (y ∷ ys),
        at0-table (x ∷ xs) ys,
      )
      (ground (arith, kept-walk xs ys, kept-walk xs (y ∷ ys), kept-walk (x ∷ xs) ys))

lcs-nil : (xs : List Text) → lcs xs [] ≡ 0
unfolding lcs
lcs-nil [] = refl
lcs-nil (x ∷ xs) = refl

lcs-nil_left : (ys : List Text) → lcs [] ys ≡ 0
unfolding lcs
lcs-nil_left ys = refl

lcs-cons :
    (x y : Text) (xs ys : List Text)
    → lcs (x ∷ xs) (y ∷ ys)
      ≡ (if x == y then suc (lcs xs ys) else max (lcs xs (y ∷ ys)) (lcs (x ∷ xs) ys))
unfolding lcs
lcs-cons x y xs ys = refl

-- A line more on the right adds at most one pair and takes none away; so on the left.
grow_right :
    (xs ys : List Text)
    → ((y : Text) → lcs xs ys ≤ lcs xs (y ∷ ys)) × ((x : Text) → lcs (x ∷ xs) ys ≤ suc (lcs xs ys))
grow_right [] [] = (λ y. omega (arith, lcs-nil_left []), λ x. omega (arith, lcs-nil (x ∷ [])))
grow_right [] (v ∷ ys) = (
  λ y. omega (arith, lcs-nil_left (v ∷ ys)),
  λ x.
      ground
        (arith, lcs-cons x v [] ys, lcs-nil_left ys, lcs-nil_left (v ∷ ys), (grow_right [] ys).1 x),
)
grow_right (u ∷ xs) [] =
    (λ y. omega (arith, lcs-nil (u ∷ xs)), λ x. omega (arith, lcs-nil (x ∷ u ∷ xs)))
grow_right (u ∷ xs) (v ∷ ys) = (
  λ y. ground (arith, lcs-cons u y xs (v ∷ ys), (grow_right xs (v ∷ ys)).1 u),
  λ x.
      ground (
        arith,
        lcs-cons x v (u ∷ xs) ys,
        (grow_right (u ∷ xs) ys).0 v,
        (grow_right (u ∷ xs) ys).1 x,
      ),
)

grow_left :
    (xs ys : List Text)
    → ((x : Text) → lcs xs ys ≤ lcs (x ∷ xs) ys) × ((y : Text) → lcs xs (y ∷ ys) ≤ suc (lcs xs ys))
grow_left [] [] = (λ x. omega (arith, lcs-nil_left []), λ y. omega (arith, lcs-nil_left (y ∷ [])))
grow_left [] (v ∷ ys) =
    (λ x. omega (arith, lcs-nil_left (v ∷ ys)), λ y. omega (arith, lcs-nil_left (y ∷ v ∷ ys)))
grow_left (u ∷ xs) [] = (
  λ x. omega (arith, lcs-nil (u ∷ xs)),
  λ y. ground (arith, lcs-cons u y xs [], lcs-nil xs, lcs-nil (u ∷ xs), (grow_left xs []).1 y),
)
grow_left (u ∷ xs) (v ∷ ys) = (
  λ x. ground (arith, lcs-cons x v (u ∷ xs) ys, (grow_left (u ∷ xs) ys).1 v),
  λ y.
      ground
        (arith, lcs-cons u y xs (v ∷ ys), (grow_left xs (v ∷ ys)).0 u, (grow_left xs (v ∷ ys)).1 y),
)

-- An alignment of two lists of lines that matches `n` pairs of equal lines, in order.
pub data Common : List Text → List Text → ℕ → Type 0 where
  nil : Common [] [] 0
  skip_left : {xs ys : List Text} {n : ℕ} (x : Text) → Common xs ys n → Common (x ∷ xs) ys n
  skip_right : {xs ys : List Text} {n : ℕ} (y : Text) → Common xs ys n → Common xs (y ∷ ys) n
  pair :
      {xs ys : List Text} {n : ℕ} (x y : Text)
      → x ≡ y
      → Common xs ys n
      → Common (x ∷ xs) (y ∷ ys) (suc n)

Common-le : {xs ys : List Text} {n : ℕ} → Common xs ys n → n ≤ lcs xs ys
Common-le nil = omega arith
Common-le (skip_left {xs = xs} {ys = ys} x c) = omega (arith, Common-le c, (grow_left xs ys).0 x)
Common-le (skip_right {xs = xs} {ys = ys} y c) = omega (arith, Common-le c, (grow_right xs ys).0 y)
Common-le (pair {xs = xs} {ys = ys} x y e c) =
    ground (arith, Common-le c, lcs-cons x y xs ys, ==_iff x y)

-- The lines that a diff keeps or drops are the lines of the old text, those that it keeps or adds are
-- the lines of the new text, in order; and no alignment of the two texts keeps more lines.
pub diff_minimal :
    (old new : Text)
    → (old_side (edits old new) ≡ lines old)
      × (new_side (edits old new) ≡ lines new)
      × ((n : ℕ) → Common (lines old) (lines new) n → n ≤ kept (edits old new))
unfolding edits
diff_minimal old new =
    let (o, n) = walk-sides (lines old) (lines new) (table (lines old) (lines new)) in
    (o, n, λ k c. omega (arith, Common-le c, kept-walk (lines old) (lines new)))
