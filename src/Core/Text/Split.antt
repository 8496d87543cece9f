-- ===== src/Core/Text/Split.antt =====
-- Splitting a text and joining the pieces.
use role_n.Prelude.{
  All, contains, nat_eq, false, ℕ, ◌≡◌, refl, ◌≢◌, Bool, List, [], ◌∷◌, if◌then◌else◌, eqb, eqb_iff,
  nat_eq, arith, inl, inr, Bool-cases,
}
use role_n.Core.Types.{Text}
use role_n.Core.Text.{cons_head, split, split_by, join}

split_by-ne : (p : ℕ → Bool) (text : Text) → split_by p text ≢ []
unfolding split_by
split_by-ne p [] = ground arith
split_by-ne p (c ∷ text) = ground arith

pub join-cons_head : (c d : ℕ) (ls : List Text) → ls ≢ [] → join c (cons_head d ls) ≡ d ∷ join c ls
unfolding join cons_head
join-cons_head c d [] h = absurd (h refl)
join-cons_head c d (l ∷ []) h = refl
join-cons_head c d (l ∷ m ∷ ls) h = refl

pub join-nil_cons : (c : ℕ) (ls : List Text) → ls ≢ [] → join c ([] ∷ ls) ≡ c ∷ join c ls
unfolding join
join-nil_cons c [] h = absurd (h refl)
join-nil_cons c (l ∷ ls) h = refl

pub split-cons :
    (c d : ℕ) (text : Text)
    → split c (d ∷ text) ≡ (if eqb c d then [] ∷ split c text else cons_head d (split c text))
unfolding split split_by
split-cons c d text = refl

pub split-ne : (c : ℕ) (text : Text) → split c text ≢ []
unfolding split
split-ne c text = split_by-ne (eqb c) text

-- Joining the pieces of a split by the separator gives the text back.
pub join-split : (c : ℕ) (text : Text) → join c (split c text) ≡ text
unfolding split split_by join
join-split c [] = refl
join-split c (d ∷ text) = elim (Bool-cases (eqb c d)) [
  | inl e ↦
      rw (e, join-nil_cons c (split c text) (split_by-ne (eqb c) text), join-split c text)
        (ground (arith, eqb_iff c d))
  | inr e ↦ rw (e, join-cons_head c d (split c text) (split_by-ne (eqb c) text), join-split c text)
]

cons_head-free :
    (c d : ℕ) (pieces : List Text)
    → eqb c d ≡ false
    → All (λ (piece : Text). contains piece c ≡ false) pieces
    → All (λ (piece : Text). contains piece c ≡ false) (cons_head d pieces)
unfolding cons_head
cons_head-free c d [] n a = (ground (arith, n), tt)
cons_head-free c d (piece ∷ pieces) n (p, a) = (ground (arith, n, p), a)

-- The pieces of a split do not contain the separator.
pub split-free :
    (c : ℕ) (text : Text) → All (λ (piece : Text). contains piece c ≡ false) (split c text)
unfolding split split_by
split-free c [] = (refl, tt)
split-free c (d ∷ text) = elim (Bool-cases (eqb c d)) [
  | inl e ↦ rw e (refl, split-free c text)
  | inr e ↦ rw e (cons_head-free c d (split c text) e (split-free c text))
]
