-- ===== src/Core/Text/Numbers.antt =====
-- `to_string` and `parse` of the integers of Rust, in decimal digits, and `trim` of what they print.
use role_n.Prelude.{
  ℕ, zero, suc, ◌+◌, ◌-◌, ◌*◌, ◌/◌, ◌%◌, ◌^◌, ◌<◌, ◌≡◌, refl, ◌∙◌, Bool, true, false, ◌&&◌, Option,
  none, some, [], ◌∷◌, ◌++◌, if◌then◌else◌, eqb, leb, ltb, arith, Bool-cases, inl, inr, all,
}
use role_n.Core.Types.{Text}
use role_n.Core.Text.{is_whitespace, is_empty, trim_start, trim_end, trim}

-- Fuel: the number itself, which each digit divides by ten.
show_digits : ℕ → ℕ → Text
show_digits zero n = []
show_digits (suc fuel) n =
    let high = show_digits fuel (n / 10) in
    if ltb n 10 then (48 + n) ∷ [] else high ++ (48 + n % 10) ∷ []

unfoldable pub show : ℕ → Text
unfolding show_digits
show n = show_digits (suc n) n

-- `i32`, by its distance from i32::MIN.
unfoldable pub show_i32 : ℕ → Text
unfolding show
show_i32 p = if ltb p (2 ^ 31) then b'-' ∷ show (2 ^ 31 - p) else show (p - 2 ^ 31)

-- The digits are read from the left, and one that takes the value to the limit is an error.
scan : ℕ → ℕ → Text → Option ℕ
scan limit acc [] = some acc
scan limit acc (c ∷ text) =
    let value = acc * 10 + (c - 48) in
    let rest = scan limit value text in
    if leb 48 c && leb c 57 && ltb value limit then rest else none

digits_below : ℕ → Text → Option ℕ
unfolding scan
digits_below limit [] = none
digits_below limit (c ∷ text) = scan limit 0 (c ∷ text)

-- `parse::<u8>()` and the like: a leading plus is allowed.
unfoldable pub parse_below : ℕ → Text → Option ℕ
unfolding digits_below
parse_below limit [] = none
parse_below limit (c ∷ text) =
    if eqb c b'+' then digits_below limit text else digits_below limit (c ∷ text)

abbrev negated : Option ℕ → Option ℕ
negated none = none
negated (some n) = some (2 ^ 31 - n)

abbrev raised : Option ℕ → Option ℕ
raised none = none
raised (some n) = some (2 ^ 31 + n)

-- `parse::<i32>()`
unfoldable pub parse_i32 : Text → Option ℕ
unfolding digits_below parse_below
parse_i32 [] = none
parse_i32 (c ∷ text) =
    if eqb c b'-'
    then negated (digits_below (2 ^ 31 + 1) text)
    else raised (parse_below (2 ^ 31) (c ∷ text))

abbrev is_digit : ℕ → Bool
is_digit c = leb 48 c && leb c 57

scan-append :
    (limit acc : ℕ) (text : Text) (c : ℕ)
    → scan limit acc (text ++ c ∷ []) ≡ (elim (scan limit acc text) [
      | none ↦ none
      | some v ↦
          (if leb 48 c && leb c 57 && ltb (v * 10 + (c - 48)) limit
            then some (v * 10 + (c - 48))
            else none)
    ])
unfolding scan
scan-append limit acc [] c = refl
scan-append limit acc (d ∷ text) c = ground (arith, scan-append limit (acc * 10 + (d - 48)) text c)

scan-show_digits :
    (limit fuel n : ℕ) → n < fuel → n < limit → scan limit 0 (show_digits fuel n) ≡ some n
unfolding scan show_digits
scan-show_digits limit zero n l b = ground arith
scan-show_digits limit (suc fuel) n l b = elim (Bool-cases (ltb n 10)) [
  | inl e ↦ rw e (ground arith)
  | inr e ↦
      let h : scan limit 0 (show_digits fuel (n / 10)) ≡ some (n / 10) =
        scan-show_digits limit fuel (n / 10) (ground arith) (ground arith) in
      rw (e, scan-append limit 0 (show_digits fuel (n / 10)) (48 + n % 10), h) (ground arith)
]

all-append : (p : ℕ → Bool) (xs : Text) (c : ℕ) → all p (xs ++ c ∷ []) ≡ (all p xs && p c)
all-append p [] c = ground arith
all-append p (x ∷ xs) c = ground (arith, all-append p xs c)

all-show_digits : (fuel n : ℕ) → all is_digit (show_digits fuel n) ≡ true
unfolding show_digits
all-show_digits zero n = refl
all-show_digits (suc fuel) n = ground (
  arith,
  all-append is_digit (show_digits fuel (n / 10)) (48 + n % 10),
  all-show_digits fuel (n / 10),
)

is_empty-append : (xs : Text) (c : ℕ) → is_empty (xs ++ c ∷ []) ≡ false
is_empty-append [] c = refl
is_empty-append (x ∷ xs) c = refl

is_empty-show_digits : (fuel n : ℕ) → is_empty (show_digits (suc fuel) n) ≡ false
unfolding show_digits
is_empty-show_digits fuel n =
    ground (arith, is_empty-append (show_digits fuel (n / 10)) (48 + n % 10))

parse_below-digits :
    (limit : ℕ) (text : Text)
    → is_empty text ≡ false
    → all is_digit text ≡ true
    → (digits_below limit text ≡ scan limit 0 text) × (parse_below limit text ≡ scan limit 0 text)
unfolding parse_below digits_below
parse_below-digits limit [] e d = ground arith
parse_below-digits limit (c ∷ text) e d =
    let n : eqb c b'+' ≡ false = ground (arith, d) in (refl, rw n refl)

pub parse_below-show : (limit n : ℕ) → n < limit → parse_below limit (show n) ≡ some n
unfolding show
parse_below-show limit n h =
    (parse_below-digits limit (show n) (is_empty-show_digits n n) (all-show_digits (suc n) n)).1
    ∙ scan-show_digits limit (suc n) n (omega arith) h

digits_below-show : (limit n : ℕ) → n < limit → digits_below limit (show n) ≡ some n
unfolding show
digits_below-show limit n h =
    (parse_below-digits limit (show n) (is_empty-show_digits n n) (all-show_digits (suc n) n)).0
    ∙ scan-show_digits limit (suc n) n (omega arith) h

parse_i32-digits :
    (text : Text)
    → all is_digit text ≡ true
    → is_empty text ≡ false
    → parse_i32 text ≡ raised (parse_below (2 ^ 31) text)
unfolding parse_i32
parse_i32-digits [] d e = ground arith
parse_i32-digits (c ∷ text) d e = let n : eqb c b'-' ≡ false = ground (arith, d) in rw n refl

pub parse_i32-show_i32 : (p : ℕ) → p < 2 ^ 32 → parse_i32 (show_i32 p) ≡ some p
unfolding show_i32 parse_i32 show
parse_i32-show_i32 p h = elim (Bool-cases (ltb p (2 ^ 31))) [
  | inl e ↦ rw (e, digits_below-show (2 ^ 31 + 1) (2 ^ 31 - p) (ground arith)) (ground arith)
  | inr e ↦
      let n = p - 2 ^ 31 in
      rw
        (
          e,
          parse_i32-digits (show n) (all-show_digits (suc n) n) (is_empty-show_digits n n),
          parse_below-show (2 ^ 31) n (ground arith),
        )
        (ground arith)
]

-- A text that begins and ends with other than white space, here one of digits and signs.
abbrev is_plain : ℕ → Bool
is_plain c = leb 45 c && leb c 57

is_whitespace-plain : (c : ℕ) → is_plain c ≡ true → is_whitespace c ≡ false
unfolding is_whitespace
is_whitespace-plain c h = ground (arith, h)

trim_end-plain : (text : Text) → all is_plain text ≡ true → trim_end text ≡ text
unfolding trim_end
trim_end-plain [] h = refl
trim_end-plain (c ∷ text) h = ground (arith, h, is_whitespace-plain c, trim_end-plain text)

trim_start-plain : (text : Text) → all is_plain text ≡ true → trim_start text ≡ text
unfolding trim_start
trim_start-plain [] h = refl
trim_start-plain (c ∷ text) h = ground (arith, h, is_whitespace-plain c)

trim-plain : (text : Text) → all is_plain text ≡ true → trim text ≡ text
unfolding trim
trim-plain text h = rw (trim_start-plain text h) (trim_end-plain text h)

all-plain : (text : Text) → all is_digit text ≡ true → all is_plain text ≡ true
all-plain [] h = refl
all-plain (c ∷ text) h = ground (arith, h, all-plain text)

-- A printed number has no white space to trim.
pub trim-show : (n : ℕ) → trim (show n) ≡ show n
unfolding show
trim-show n = trim-plain (show n) (all-plain (show n) (all-show_digits (suc n) n))

pub trim-show_i32 : (p : ℕ) → trim (show_i32 p) ≡ show_i32 p
unfolding show_i32 show
trim-show_i32 p =
    let small = all-plain (show (2 ^ 31 - p)) (all-show_digits (suc (2 ^ 31 - p)) (2 ^ 31 - p)) in
    let big = all-plain (show (p - 2 ^ 31)) (all-show_digits (suc (p - 2 ^ 31)) (p - 2 ^ 31)) in
    trim-plain (show_i32 p) (ground (arith, small, big))

pub is_empty-show : (n : ℕ) → is_empty (show n) ≡ false
unfolding show
is_empty-show n = is_empty-show_digits n n

pub is_empty-show_i32 : (p : ℕ) → is_empty (show_i32 p) ≡ false
unfolding show_i32 show
is_empty-show_i32 p = ground (arith, is_empty-show_digits (p - 2 ^ 31) (p - 2 ^ 31))
