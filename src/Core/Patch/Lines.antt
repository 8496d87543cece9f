-- ===== src/Core/Patch/Lines.antt =====
-- From the text of a file to its lines and back (`apply_patch` of patch.rs).
use role_n.Prelude.{
  ℕ, ◌≡◌, refl, ap, ◌∙◌, ◌≢◌, inl, inr, false, true, List, [], ◌∷◌, ◌++◌, map, eqb, eqb_iff,
  contains, nat_eq, Bool-cases, arith,
}
use role_n.Core.Types.{Text}
use role_n.Core.Text.{cons_head, split, split_by, join, strip_cr, ends_with}
use role_n.Core.Text.Split.{split-cons, join-split, join-cons_head, join-nil_cons}
use role_n.Core.Patch.{pop_empty, old_lines, finish}

strip_cr-cons : (c : ℕ) (line : Text) → eqb c 13 ≡ false → strip_cr (c ∷ line) ≡ c ∷ strip_cr line
unfolding strip_cr
strip_cr-cons c [] h = rw h
strip_cr-cons c (d ∷ line) h = refl

map-cons_head :
    (c : ℕ) (ls : List Text)
    → eqb c 13 ≡ false
    → map strip_cr (cons_head c ls) ≡ cons_head c (map strip_cr ls)
unfolding cons_head strip_cr
map-cons_head c [] h = rw h
map-cons_head c (l ∷ ls) h = ap (λ x. x ∷ map strip_cr ls) (strip_cr-cons c l h)

-- A text without carriage returns is not changed by stripping them.
strip_cr-split :
    (text : Text) → contains text 13 ≡ false → map strip_cr (split b'\n' text) ≡ split b'\n' text
unfolding split split_by strip_cr
strip_cr-split [] h = refl
strip_cr-split (c ∷ text) h =
    let rest = strip_cr-split text (ground arith) in
    elim (Bool-cases (eqb b'\n' c)) [
      | inl e ↦ rw e (ap (λ ls. [] ∷ ls) rest)
      | inr e ↦ rw e (map-cons_head c (split b'\n' text) (ground arith) ∙ ap (cons_head c) rest)
    ]

-- A text that ends in a newline splits into two pieces at least.
split-ends_with :
    (text : Text)
    → ends_with b'\n' text ≡ true
    → (a : Text) × (b : Text) × (ls : List Text) × (split b'\n' text ≡ a ∷ b ∷ ls)
unfolding ends_with cons_head
split-ends_with [] h = cc
split-ends_with (c ∷ []) h = ([], [], [], unfold split split_by in rw h)
split-ends_with (c ∷ d ∷ text) h =
    let (a, b, ls, e) = split-ends_with (d ∷ text) h in
    elim (Bool-cases (eqb b'\n' c)) [
      | inl t ↦ ([], a, b ∷ ls, ground (arith, e, split-cons b'\n' c (d ∷ text)))
      | inr t ↦ (c ∷ a, b, ls, ground (arith, e, split-cons b'\n' c (d ∷ text)))
    ]

pop_empty-cons_head :
    (c : ℕ) (a b : Text) (ls : List Text)
    → pop_empty (cons_head c (a ∷ b ∷ ls)) ≡ cons_head c (pop_empty (a ∷ b ∷ ls))
unfolding pop_empty cons_head
pop_empty-cons_head c [] b ls = refl
pop_empty-cons_head c (d ∷ a) b ls = refl

pop_empty-nil_cons :
    (a b : Text) (ls : List Text) → pop_empty ([] ∷ a ∷ b ∷ ls) ≡ [] ∷ pop_empty (a ∷ b ∷ ls)
unfolding pop_empty
pop_empty-nil_cons a b ls = refl

pop_empty-ne : (a b : Text) (ls : List Text) → pop_empty (a ∷ b ∷ ls) ≢ []
unfolding pop_empty
pop_empty-ne [] b ls = ground arith
pop_empty-ne (c ∷ a) b ls = ground arith

-- Without the phantom line, joining leaves out the last newline and nothing else.
join-pop_empty :
    (text : Text)
    → ends_with b'\n' text ≡ true
    → join b'\n' (pop_empty (split b'\n' text)) ++ b'\n' ∷ [] ≡ text
unfolding ends_with
join-pop_empty [] h = cc
join-pop_empty (c ∷ []) h =
    unfold split split_by pop_empty join in rw h (ground (arith, eqb_iff b'\n' c))
join-pop_empty (c ∷ d ∷ text) h =
    let (a, b, ls, e) = split-ends_with (d ∷ text) h in
    let rest = join-pop_empty (d ∷ text) h in
    elim (Bool-cases (eqb b'\n' c)) [
      | inl t ↦
          rw
            (
              split-cons,
              t,
              e,
              pop_empty-nil_cons a b ls,
              join-nil_cons b'\n' (pop_empty (a ∷ b ∷ ls)) (pop_empty-ne a b ls),
            )
            (ground (arith, rest, e, eqb_iff b'\n' c))
      | inr t ↦
          rw
            (
              split-cons,
              t,
              e,
              pop_empty-cons_head c a b ls,
              join-cons_head b'\n' c (pop_empty (a ∷ b ∷ ls)) (pop_empty-ne a b ls),
            )
            (ground (arith, rest, e))
    ]

-- A non-empty text without carriage returns is what `finish` makes of its own lines.
pub finish-old_lines :
    (old : Text) → old ≢ [] → contains old 13 ≡ false → finish old (old_lines old) ≡ old
unfolding finish old_lines
finish-old_lines old ne h = rw (strip_cr-split old h) (elim (Bool-cases (ends_with b'\n' old)) [
  | inl e ↦ ground (arith, e, join-pop_empty old e)
  | inr e ↦ ground (arith, e, ne, join-split b'\n' old)
])
