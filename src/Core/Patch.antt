-- ===== src/Core/Patch.antt =====
-- rolen-core/src/patch.rs: a unified diff is parsed into hunks, each hunk is located in the lines of
-- the current file, and replaced there.
pub mod Locate
pub mod Lines
pub mod Apply
pub mod Whole
mod Tests
use role_n.Prelude.{
  ℕ, zero, suc, ◌+◌, ◌-◌, min, Bool, false, true, ◌&&◌, ◌||◌, Option, none, some, List, [], ◌∷◌,
  ◌++◌, map, if◌then◌else◌, eqb, leb, ltb, length, take, drop, ◌==◌, contains, nat_eq, list_eq,
}
use role_n.Core.Types.{Text}
use role_n.Core.Text.{
  codes, split, lines, strip_cr, join, starts_with, ends_with, split_whitespace, trim_start_matches,
  parse_usize,
}

-- `Some`, `None`, and the panic of a slice or a splice out of range.
pub data Attempt {ℓ} (A : Type ℓ) : Type ℓ where
  value : A → Attempt A
  reject : Attempt A
  panic : Attempt A

infixl 5 ◌>>=◌
abbrev pub ◌>>=◌ {ℓ κ} : {A : Type ℓ} {B : Type κ} → Attempt A → (A → Attempt B) → Attempt B
value a >>= f = f a
reject >>= f = reject
panic >>= f = panic

abbrev of_option {ℓ} : {A : Type ℓ} → Option A → Attempt A
of_option none = reject
of_option (some a) = value a

pub record Hunk : Type 0 where
  pub old_start : ℕ
  pub old_side : List Text
  pub new_side : List Text

-- The `match` on the first byte of a line inside a hunk.
add_line : Hunk → Text → Hunk
add_line h [] = record h { old_side = h.old_side ++ [] ∷ []; new_side = h.new_side ++ [] ∷ [] }
add_line h (c ∷ rest) =
    if eqb c b' '
    then record h { old_side = h.old_side ++ rest ∷ []; new_side = h.new_side ++ rest ∷ [] }
    else if eqb c b'-'
    then record h { old_side = h.old_side ++ rest ∷ [] }
    else if eqb c b'+'
    then record h { new_side = h.new_side ++ rest ∷ [] }
    else h

-- `split_whitespace().nth(1)`, its leading dashes dropped, up to the first comma.
abbrev second : List Text → Option Text
second (a ∷ b ∷ _) = some b
second _ = none

abbrev first : List Text → Option Text
first [] = none
first (a ∷ _) = some a

abbrev bind_option {ℓ κ} : {A : Type ℓ} {B : Type κ} → Option A → (A → Option B) → Option B
bind_option none f = none
bind_option (some a) f = f a

header_start : Text → Option ℕ
header_start line =
    bind_option (second (split_whitespace line))
      λ word. bind_option (first (split b',' (trim_start_matches b'-' word))) parse_usize

abbrev flush : List Hunk → Option Hunk → List Hunk
flush hunks none = hunks
flush hunks (some h) = hunks ++ h ∷ []

abbrev open_hunk : List Hunk → Option Hunk → Option ℕ → Option (List Hunk × Option Hunk)
open_hunk hunks cur none = none
open_hunk hunks cur (some start) =
    some (flush hunks cur, some (record { old_start = start; old_side = []; new_side = [] }))

abbrev body_line : List Hunk → Option Hunk → Text → Option (List Hunk × Option Hunk)
body_line hunks none line = none
body_line hunks (some h) line = some (hunks, some (add_line h line))

-- One round of the loop of `parse_hunks`; `none` is its early return.
parse_line : List Hunk → Option Hunk → Text → Option (List Hunk × Option Hunk)
unfolding header_start add_line
parse_line hunks cur line =
    if starts_with (codes "---") line
      || starts_with (codes "+++") line
      || starts_with (codes "diff ") line
    then some (hunks, cur)
    else if starts_with (codes "@@") line
    then open_hunk hunks cur (header_start line)
    else body_line hunks cur line

parse_loop : List Hunk → Option Hunk → List Text → Option (List Hunk)
parse_loop hunks cur [] = some (flush hunks cur)
parse_loop hunks cur (line ∷ rest) = elim (parse_line hunks cur line) [
  | none ↦ none
  | some (hunks', cur') ↦ parse_loop hunks' cur' rest
]

pub parse_hunks : Text → Option (List Hunk)
unfolding parse_loop parse_line lines starts_with split_whitespace trim_start_matches split
    parse_usize
parse_hunks diff = parse_loop [] none (lines diff)

-- The offsets from `start` on, `rounds` of them, at which `needle` stands in `lines`.
pub match_positions : List Text → List Text → ℕ → ℕ → List ℕ
match_positions doc needle start zero = []
match_positions doc needle start (suc rounds) =
    let rest = match_positions doc needle (start + 1) rounds in
    if take (length needle) (drop start doc) == needle then start ∷ rest else rest

-- Several matches: the declared position if it is one of them. One match is taken, none refused.
pub choose : ℕ → List ℕ → Attempt ℕ
choose declared [] = reject
choose declared (pos ∷ []) = value pos
choose declared (pos ∷ other ∷ rest) =
    if contains (pos ∷ other ∷ rest) declared then value declared else reject

-- The slice `lines[0..needle.len()]` is out of range if the file is shorter than the needle.
search_needle : List Text → List Text → ℕ → Attempt ℕ
search_needle doc needle declared =
    if ltb (length doc) (length needle)
    then panic
    else choose declared (match_positions doc needle 0 (length doc - length needle + 1))

-- A hunk with no old side only adds: it goes to its declared position, at most the end.
locate_side : List Text → ℕ → List Text → Attempt ℕ
unfolding search_needle
locate_side doc old_start [] = value (min (old_start - 1) (length doc))
locate_side doc old_start (line ∷ rest) = search_needle doc (line ∷ rest) (old_start - 1)

pub locate : List Text → Hunk → Attempt ℕ
unfolding locate_side
locate doc h = locate_side doc h.old_start h.old_side

-- `lines.splice(pos..pos + h.old_len(), h.new_lines())`
pub splice : List Text → ℕ → Hunk → List Text
splice doc pos h = take pos doc ++ (h.new_side ++ drop (pos + length h.old_side) doc)

pub apply_hunks : List Hunk → List Text → Attempt (List Text)
apply_hunks [] doc = value doc
apply_hunks (h ∷ hunks) doc = do pos ← locate doc h; apply_hunks hunks (splice doc pos h)

-- `sort_by_key(|h| Reverse(h.old_start))`, which is stable.
insert_hunk : Hunk → List Hunk → List Hunk
insert_hunk h [] = h ∷ []
insert_hunk h (g ∷ hunks) =
    if leb g.old_start h.old_start then h ∷ g ∷ hunks else g ∷ insert_hunk h hunks

pub bottom_up : List Hunk → List Hunk
unfolding insert_hunk
bottom_up [] = []
bottom_up (h ∷ hunks) = insert_hunk h (bottom_up hunks)

-- The phantom last line that `split` leaves behind a trailing newline.
pop_empty : List Text → List Text
pop_empty [] = []
pop_empty ([] ∷ []) = []
pop_empty ((c ∷ line) ∷ []) = (c ∷ line) ∷ []
pop_empty (line ∷ next ∷ rest) = line ∷ pop_empty (next ∷ rest)

abbrev is_nil : {A : Type 0} → List A → Bool
is_nil [] = true
is_nil (_ ∷ _) = false

trailing_newline : Text → Bool
unfolding ends_with
trailing_newline old = ends_with b'\n' old || is_nil old

pub old_lines : Text → List Text
unfolding pop_empty trailing_newline split strip_cr
old_lines old =
    let doc = map strip_cr (split b'\n' old) in if trailing_newline old then pop_empty doc else doc

pub finish : Text → List Text → Text
unfolding trailing_newline join
finish old doc = if trailing_newline old then join b'\n' doc ++ b'\n' ∷ [] else join b'\n' doc

apply_parsed : Text → List Hunk → Attempt Text
unfolding old_lines finish bottom_up
apply_parsed old [] = reject
apply_parsed old (h ∷ hunks) = do
  doc ← apply_hunks (bottom_up (h ∷ hunks)) (old_lines old)
  value (finish old doc)

unfoldable pub apply_patch : Text → Text → Attempt Text
unfolding apply_parsed parse_hunks apply_hunks locate match_positions choose splice
apply_patch old diff = do hunks ← of_option (parse_hunks diff); apply_parsed old hunks
