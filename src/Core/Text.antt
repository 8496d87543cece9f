-- ===== src/Core/Text.antt =====
-- What the crates use of Rust's `str`, over the characters of a text by number.
pub mod Split
pub mod Numbers
use Prim.Native.Char.{code}
use role_n.Prelude.{
  ℕ, zero, suc, ◌+◌, ◌-◌, ◌*◌, ◌^◌, String, Bool, false, true, ◌&&◌, ◌||◌, not, Option, none, some,
  List, [], ◌∷◌, ◌++◌, if◌then◌else◌, eqb, leb, ltb, filter,
}
use role_n.Core.Types.{Text}

-- A literal of the source.
abbrev pub codes : String → Text
codes String.[] = []
codes (String.◌∷◌ c s) = code c ∷ codes s

unfoldable pub cons_head : ℕ → List Text → List Text
cons_head c [] = (c ∷ []) ∷ []
cons_head c (line ∷ lines) = (c ∷ line) ∷ lines

-- `split`, by a predicate on characters: never empty.
unfoldable pub split_by : (ℕ → Bool) → Text → List Text
unfolding cons_head
split_by p [] = [] ∷ []
split_by p (c ∷ text) = let rest = split_by p text in if p c then [] ∷ rest else cons_head c rest

unfoldable pub split : ℕ → Text → List Text
unfolding split_by
split c = split_by (eqb c)

-- `strip_suffix('\r').unwrap_or(s)`
unfoldable pub strip_cr : Text → Text
strip_cr [] = []
strip_cr (c ∷ []) = if eqb c 13 then [] else c ∷ []
strip_cr (c ∷ d ∷ text) = c ∷ strip_cr (d ∷ text)

abbrev pub is_empty {ℓ} : {A : Type ℓ} → List A → Bool
is_empty [] = true
is_empty (_ ∷ _) = false

terminated : List Text → List Text
unfolding strip_cr
terminated [] = []
terminated (line ∷ []) = if is_empty line then [] else line ∷ []
terminated (line ∷ next ∷ rest) = strip_cr line ∷ terminated (next ∷ rest)

-- `lines()`: a last piece without a newline keeps its carriage return, an empty one is no line.
unfoldable pub lines : Text → List Text
unfolding split terminated
lines text = terminated (split b'\n' text)

-- `join("\n")`
unfoldable pub join : ℕ → List Text → Text
join c [] = []
join c (line ∷ []) = line
join c (line ∷ next ∷ rest) = line ++ c ∷ join c (next ∷ rest)

unfoldable pub starts_with : Text → Text → Bool
starts_with [] text = true
starts_with (c ∷ prefix) [] = false
starts_with (c ∷ prefix) (d ∷ text) = eqb c d && starts_with prefix text

unfoldable pub ends_with : ℕ → Text → Bool
ends_with c [] = false
ends_with c (d ∷ []) = eqb c d
ends_with c (d ∷ e ∷ text) = ends_with c (e ∷ text)

-- `char::is_whitespace`, the Unicode property White_Space.
unfoldable pub is_whitespace : ℕ → Bool
is_whitespace c =
    leb 9 c && leb c 13
    || eqb c 0x20
    || eqb c 0x85
    || eqb c 0xa0
    || eqb c 0x1680
    || leb 0x2000 c && leb c 0x200a
    || eqb c 0x2028
    || eqb c 0x2029
    || eqb c 0x202f
    || eqb c 0x205f
    || eqb c 0x3000

unfoldable pub split_whitespace : Text → List Text
unfolding is_whitespace split_by
split_whitespace text = filter (λ word. not (is_empty word)) (split_by is_whitespace text)

unfoldable pub trim_start_matches : ℕ → Text → Text
trim_start_matches c [] = []
trim_start_matches c (d ∷ text) = if eqb c d then trim_start_matches c text else d ∷ text

parse_digits : ℕ → Text → Option ℕ
parse_digits acc [] = some acc
parse_digits acc (c ∷ text) =
    let value = acc * 10 + (c - 48) in
    let rest = parse_digits value text in
    if leb 48 c && leb c 57 && ltb value (2 ^ 64) then rest else none

-- `parse::<usize>()` on a 64-bit target: a leading plus is allowed, an overflow is an error.
unfoldable pub parse_usize : Text → Option ℕ
unfolding parse_digits
parse_usize [] = none
parse_usize (c ∷ []) = if eqb c b'+' then none else parse_digits 0 (c ∷ [])
parse_usize (c ∷ d ∷ text) =
    if eqb c b'+' then parse_digits 0 (d ∷ text) else parse_digits 0 (c ∷ d ∷ text)

-- `split_once(c)`
unfoldable pub split_once : ℕ → Text → Option (Text × Text)
split_once c [] = none
split_once c (d ∷ text) =
    let rest = split_once c text in
    if eqb c d then some ([], text) else elim rest [ none ↦ none | some (a, b) ↦ some (d ∷ a, b) ]

trim_start : Text → Text
unfolding is_whitespace
trim_start [] = []
trim_start (c ∷ text) = let rest = trim_start text in if is_whitespace c then rest else c ∷ text

trim_end : Text → Text
unfolding is_whitespace
trim_end [] = []
trim_end (c ∷ text) =
    let rest = trim_end text in if is_empty rest && is_whitespace c then [] else c ∷ rest

unfoldable pub trim : Text → Text
unfolding trim_start trim_end
trim text = trim_end (trim_start text)
